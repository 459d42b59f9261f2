-- ===== src/Orchestrator/Panel.antt =====
-- src/internal/orchestrator/validator.go, `Validator.decide`: the reviewer models, asked one after the
-- other. `ask n m` is how the n-th call, of model m, ended: the text of the reply, what `review` made of
-- it, and whether its vote could be put on the chain. Texts for people are kept as data.
pub mod Unanimous
use Prim.Native.String.{◌++◌ as append_text}
use st_air_case.Prelude.{
  ℕ, zero, suc, ◌%◌, String, Bool, true, false, not, ◌&&◌, ◌||◌, Option, none, some, List, [], ◌∷◌,
  ◌++◌, length, ltb, ◌==◌, str_eq, if◌then◌else◌,
}
use st_air_case.Domain.{action_file_edit}

pub record Validator : Type 0 where
  pub models : List String
  pub approvals : ℕ
  pub reject_run : ℕ
  pub unreviewed : Bool
  pub no_sampling : Bool

abbrev pub validator_sample_every : ℕ
validator_sample_every = 5

abbrev pub validator_reject_limit : ℕ
validator_reject_limit = 2

-- What `review` returns: an error, or the model's verdict with its reason.
pub data ModelReview : Type 0 where
  failed approves rejects : String → ModelReview

pub record Answer : Type 0 where
  pub reply : String
  pub review : ModelReview
  pub recorded : Bool

-- A `history.ValidatorVoted`, less the entry of the request, which the caller adds.
pub record ValidatorVote : Type 0 where
  pub model : String
  pub reply_sha256 : String
  pub verdict : String
  pub reason : String

abbrev pub vote_error : String
vote_error = "error"

abbrev pub vote_approve : String
vote_approve = "approve"

abbrev pub vote_reject : String
vote_reject = "reject"

-- Why a person decides; the texts are those of errors and of reasons.
pub data Note : Type 0 where
  silent : Note
  rejected_last : ℕ → Note
  cannot_read not_recorded unavailable : String → Note
  disagree : List String → List String → Note
  sampled : List String → Note

pub data PanelDecision : Type 0 where
  left_open : Note → PanelDecision
  decided : Bool → List String → PanelDecision

-- How the loop over the models ended.
pub data Poll : Type 0 where
  stopped : Note → Poll
  all_in : List String → List String → Poll

abbrev pub vote_verdict : ModelReview → String
vote_verdict (failed e) = vote_error
vote_verdict (approves r) = vote_approve
vote_verdict (rejects r) = vote_reject

abbrev reason_of : ModelReview → String
reason_of (failed e) = e
reason_of (approves r) = r
reason_of (rejects r) = r

abbrev pub is_nil {ℓ} : {A : Type ℓ} → List A → Bool
is_nil [] = true
is_nil (x ∷ xs) = false

-- A recorded vote, and what the later models add.
abbrev pub after_vote : ValidatorVote → List ValidatorVote × Poll → List ValidatorVote × Poll
after_vote v rest = (v ∷ rest.0, rest.1)

-- `fmt` puts the model's name before its reason where there are several.
abbrev pub said : Bool → String → String → String
said several m r = if several then append_text m (append_text ": " r) else r

-- What one model's verdict does: an error leaves the loop, a reason joins its side.
unfoldable pub hear :
    Bool
    → String
    → ModelReview
    → List String
    → List String
    → (List String → List String → List ValidatorVote × Poll)
    → List ValidatorVote × Poll
hear several m (failed e) ayes noes next = ([], stopped (unavailable e))
hear several m (approves r) ayes noes next = next (ayes ++ said several m r ∷ []) noes
hear several m (rejects r) ayes noes next = next ayes (noes ++ said several m r ∷ [])

module _ (sha256_hex : String → String) (ask : ℕ → String → Answer) where
  abbrev pub vote_of : String → Answer → ValidatorVote
  vote_of m a = record {
    model = m;
    reply_sha256 = if str_eq a.reply "" then "" else sha256_hex a.reply;
    verdict = vote_verdict a.review;
    reason = reason_of a.review;
  }

  -- The loop over the models, at the n-th of them.
  unfoldable pub poll :
      Bool → ℕ → List String → List String → List String → List ValidatorVote × Poll
  unfolding hear
  poll several n [] ayes noes = ([], all_in ayes noes)
  poll several n (m ∷ ms) ayes noes =
      if (ask n m).recorded
      then after_vote (vote_of m (ask n m))
          (hear several m (ask n m).review ayes noes (λ a b. poll several (suc n) ms a b))
      else ([], stopped (not_recorded m))

-- The last part of `decide`: what follows from the verdicts.
unfoldable pub conclude : Validator → Poll → Validator × PanelDecision
conclude v (stopped why) = (v, left_open why)
conclude v (all_in ayes noes) =
    if not (is_nil ayes) && not (is_nil noes)
    then (v, left_open (disagree ayes noes))
    else if not (is_nil noes)
    then (record v { reject_run = suc v.reject_run }, decided false noes)
    else let w = record v { reject_run = 0; approvals = suc v.approvals } in
      if not w.no_sampling && w.approvals % validator_sample_every == 0
      then (w, left_open (sampled ayes))
      else (record w { unreviewed = true }, decided true ayes)

-- What a call leaves behind: the validator, the votes put on the chain, and the decision.
pub record Ruled : Type 0 where
  pub after : Validator
  pub votes : List ValidatorVote
  pub decision : PanelDecision

module _ (sha256_hex : String → String) (ask : ℕ → String → Answer) where
  abbrev polled : Validator → List ValidatorVote × Poll → Ruled
  polled v p = let c = conclude v p.1 in record { after = c.0; votes = p.0; decision = c.1 }

  -- `unreadable` is the first error of reading the files before the change.
  unfoldable pub decide : Validator → String → Bool → Option String → Ruled
  decide v action has_approvals unreadable =
      if not (str_eq action action_file_edit) || not has_approvals
      then record { after = v; votes = []; decision = left_open silent }
      else if not (ltb v.reject_run validator_reject_limit)
      then record { after = v; votes = []; decision = left_open (rejected_last v.reject_run) }
      else elim unreadable [
        | some e ↦ record { after = v; votes = []; decision = left_open (cannot_read e) }
        | none ↦ polled v (poll sha256_hex ask (ltb 1 (length v.models)) 0 v.models [] [])
      ]

-- A person's decision ends a run of rejections.
abbrev pub human_decided : Validator → Validator
human_decided v = record v { reject_run = 0 }

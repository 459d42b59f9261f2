-- ===== src/History/Panel.antt =====
-- history.go: the votes of the reviewer models and the decisions that rest on them.
use st_air_case.Prelude.{
  String, true, false, not, ◌&&◌, Option, none, some, List, [], ◌∷◌, str_eq, ◌≡◌, refl, arith, ap,
  inl, inr, eq_iff, Option-cases, All, Memᴰ, Mem-select, starts_with,
}
use st_air_case.History.State.{Decision, Vote, Replay}
use st_air_case.History.Grammar.{Reason, is_some}
use st_air_case.History.Refusals.{
  is_nil, votes_on, verdict_of, verdict_problem, or_later, votes_problem, wanted,
  panel_decision_refused,
}

-- The vote of a model on the proposal whose request is at an entry, with that verdict.
pub record HasVote (votes : List Vote) (entry want m : String) : Type 0 where
  pub ballot : Vote
  pub was_cast : Memᴰ ballot votes
  pub by_model : ballot.vote_model ≡ m
  pub for_request : ballot.vote_request ≡ entry
  pub agrees : ballot.verdict ≡ want

-- A decision by the panel on a request has the agreeing vote of every model of the panel.
abbrev pub RestsOnVotes : List String → List Vote → Decision → Type 0
RestsOnVotes models votes d =
    is_some d.request ≡ true
    → (not (is_nil models) && starts_with d.source "validator:") ≡ true
    → All (HasVote votes d.request_entry (wanted d.approved)) models

-- Two votes are not by one model on one request.
abbrev pub Apart : Vote → Vote → Type 0
Apart v w = (str_eq v.vote_request w.vote_request && str_eq v.vote_model w.vote_model) ≡ false

verdict_of-head :
    (m : String) (v : Vote) (vs : List Vote) (x : String)
    → verdict_of m (v ∷ vs) ≡ some x
    → verdict_of m vs ≡ none
    → (str_eq v.vote_model m ≡ true) × (v.verdict ≡ x)
unfolding verdict_of
verdict_of-head m v vs x e z = ground arith

verdict_of-tail :
    (m : String) (v : Vote) (vs : List Vote) (x y : String)
    → verdict_of m (v ∷ vs) ≡ some x
    → verdict_of m vs ≡ some y
    → verdict_of m vs ≡ some x
unfolding verdict_of
verdict_of-tail m v vs x y e z = ground arith

verdict_problem-none :
    (want : String) (o : Option String) → verdict_problem want o ≡ none → o ≡ some want
verdict_problem-none want none e = cc e
verdict_problem-none want (some x) e = ap some ((eq_iff x want).0 (ground arith))

or_later-none : (a b : Option Reason) → or_later a b ≡ none → (a ≡ none) × (b ≡ none)
or_later-none a b e = ground arith

verdict_of-some :
    (m : String) (vs : List Vote) (x : String)
    → verdict_of m vs ≡ some x
    → (v : Vote) × Memᴰ v vs × (v.vote_model ≡ m) × (v.verdict ≡ x)
unfolding verdict_of
verdict_of-some m [] x e = cc e
verdict_of-some m (v ∷ vs) x e = elim (Option-cases (verdict_of m vs)) [
  | inl z ↦ let (a, b) = verdict_of-head m v vs x e z in (v, Memᴰ.head refl, (eq_iff _ _).0 a, b)
  | inr (y, z) ↦
      let (w, k, a, b) = verdict_of-some m vs x (verdict_of-tail m v vs x y e z) in
      (w, Memᴰ.tail k, a, b)
]

votes_problem-none :
    (want entry : String) (votes : List Vote) (ms : List String)
    → votes_problem want (votes_on votes entry) ms ≡ none
    → All (HasVote votes entry want) ms
unfolding votes_problem votes_on
votes_problem-none want entry votes [] e = tt
votes_problem-none want entry votes (m ∷ ms) e =
    let (a, b) = or_later-none _ (votes_problem want (votes_on votes entry) ms) e in
    let (v, k, by, x) =
      verdict_of-some m (votes_on votes entry) want (verdict_problem-none want _ a) in
    let (k1, at) = Mem-select (λ v. str_eq v.vote_request entry) v votes k in
    (
      record {
        ballot = v;
        was_cast = k1;
        by_model = by;
        for_request = (eq_iff _ _).0 at;
        agrees = x;
      },
      votes_problem-none want entry votes ms b,
    )

pub panel_decision_refused-none :
    (h : Replay) (d : Decision)
    → panel_decision_refused h d ≡ none
    → RestsOnVotes h.bound.validator_models h.votes d
unfolding panel_decision_refused
panel_decision_refused-none h d e s b =
    votes_problem-none (wanted d.approved) d.request_entry h.votes h.bound.validator_models
      (ground arith)

-- ===== src/History/Refusals.antt =====
-- history.go: why a vote, a decision by the panel of reviewer models, and an authorization are
-- refused.
use Prim.Native.String.{◌++◌ as append_text}
use st_air_case.Prelude.{
  ℕ, suc, ◌==◌, String, Bool, true, false, not, ◌&&◌, ◌||◌, Option, none, some, List, [], ◌∷◌,
  str_eq, starts_with, any, select, if◌then◌else◌,
}
use st_air_case.History.Payload.{
  PolicySnapshot, ValidatorVoted, DeliveryAuthorized, Event, Entry, phase_was_checked,
}
use st_air_case.History.Grammar.{
  Reason, no_panel, not_on_panel, bad_verdict, votes_on_nothing, voted_twice, other_panel,
  missing_vote, disagreeing_vote, names_no_check, not_latest_check, other_tree, check_failed,
  offered_review, other_mode, other_terms, unsigned_policy, other_policy,
}
use st_air_case.History.State.{Replay, Request, Decision, Vote}

abbrev pub contains : List String → String → Bool
contains xs s = any (λ x. str_eq x s) xs

abbrev pub is_nil {ℓ} : {A : Type ℓ} → List A → Bool
is_nil [] = true
is_nil (x ∷ xs) = false

-- The first reason of a list of cases whose condition holds: a Go `switch` without a subject.
abbrev pub first_case : List (Bool × Reason) → Option Reason
first_case [] = none
first_case (c ∷ cs) = if c.0 then some c.1 else first_case cs

abbrev pub waits : List Request → String → Bool
waits pending entry = any (λ r. str_eq r.request_hash entry) pending

-- `voteRefused`
unfoldable pub vote_refused : Replay → ValidatorVoted → Option Reason
vote_refused h v = first_case (
    (is_nil h.bound.validator_models, no_panel)
    ∷ (not (contains h.bound.validator_models v.vote_model), not_on_panel)
    ∷ (
      not (str_eq v.verdict "approve" || str_eq v.verdict "reject" || str_eq v.verdict "error"),
      bad_verdict,
    )
    ∷ (not (waits h.pending v.vote_request), votes_on_nothing)
    ∷ (
      any (λ o. str_eq o.vote_request v.vote_request && str_eq o.vote_model v.vote_model) h.votes,
      voted_twice,
    )
    ∷ [])

-- `VotesOn`
unfoldable pub votes_on : List Vote → String → List Vote
votes_on votes entry = select (λ v. str_eq v.vote_request entry) votes

abbrev pub or_else : Option String → Option String → Option String
or_else (some a) b = some a
or_else none b = b

-- The map `voted` of `panelDecisionRefused` at a model: its last verdict.
unfoldable pub verdict_of : String → List Vote → Option String
verdict_of m [] = none
verdict_of m (v ∷ vs) =
    let rest = verdict_of m vs in
    or_else rest (if str_eq v.vote_model m then some v.verdict else none)

-- `strings.Join` with "+".
unfoldable pub join : List String → String
join [] = ""
join (s ∷ []) = s
join (s ∷ t ∷ ts) = append_text s (append_text "+" (join (t ∷ ts)))

abbrev pub verdict_problem : String → Option String → Option Reason
verdict_problem want none = some missing_vote
verdict_problem want (some got) = if str_eq got want then none else some disagreeing_vote

abbrev pub or_later : Option Reason → Option Reason → Option Reason
or_later (some r) later = some r
or_later none later = later

-- The last loop of `panelDecisionRefused`: every model's verdict is the one wanted.
unfoldable pub votes_problem : String → List Vote → List String → Option Reason
votes_problem want votes [] = none
votes_problem want votes (m ∷ ms) =
    or_later (verdict_problem want (verdict_of m votes)) (votes_problem want votes ms)

abbrev pub by_panel : Replay → Decision → Bool
by_panel h d = not (is_nil h.bound.validator_models) && starts_with d.source "validator:"

abbrev pub wanted : Bool → String
wanted approved = if approved then "approve" else "reject"

-- `panelDecisionRefused`
unfoldable pub panel_decision_refused : Replay → Decision → Option Reason
unfolding votes_problem
panel_decision_refused h d =
    if not (by_panel h d)
    then none
    else if not (str_eq d.source (append_text "validator:" (join h.bound.validator_models)))
    then some other_panel
    else votes_problem (wanted d.approved) (votes_on h.votes d.request_entry)
        h.bound.validator_models

abbrev pub is_check : Event → Bool
is_check (phase_was_checked p) = true
is_check _ = false

abbrev pub is_check_at : String → Entry → Bool
is_check_at hash e = is_check e.event && str_eq e.event_hash hash

-- The position, from 1, of the first phase_checked entry with that hash; 0 where there is none.
unfoldable pub named : String → List Entry → ℕ
named hash [] = 0
named hash (e ∷ es) =
    let rest = named hash es in if is_check_at hash e then 1 else if rest == 0 then 0 else suc rest

abbrev pub is_signed : Option PolicySnapshot → Bool
is_signed none = false
is_signed (some p) = p.signed

abbrev pub digest_of : Option PolicySnapshot → String
digest_of none = ""
digest_of (some p) = p.digest

-- `authorizationRefused`
unfoldable pub authorization_refused : Replay → List Entry → DeliveryAuthorized → Option Reason
authorization_refused h before p = first_case (
    (named p.auth_checked before == 0, names_no_check)
    ∷ (not (named p.auth_checked before == h.end.checked), not_latest_check)
    ∷ (not (str_eq h.end.check.checked_tree p.auth_tree), other_tree)
    ∷ (not h.end.check.passed, check_failed)
    ∷ (h.reviewed_since, offered_review)
    ∷ (not (str_eq p.auth_mode "policy"), other_mode)
    ∷ (
      str_eq h.bound.terms_sha256 "" || not (str_eq p.auth_terms h.bound.terms_sha256),
      other_terms,
    )
    ∷ (not (is_signed h.policy), unsigned_policy)
    ∷ (not (str_eq p.auth_policy (digest_of h.policy)), other_policy)
    ∷ [])

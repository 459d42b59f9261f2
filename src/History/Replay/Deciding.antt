-- ===== src/History/Replay/Deciding.antt =====
-- history.go, `replay`: the cases of requests, votes and decisions.
use st_air_case.Prelude.{
  ℕ, ltb_ℤ, String, Bool, not, Option, none, some, List, [], ◌∷◌, ◌++◌, str_eq, if◌then◌else◌,
}
use st_air_case.History.Payload.{Decided, ValidatorVoted}
use st_air_case.History.State.{Request, Decision, Replay, is_set}
use st_air_case.History.Grammar.{
  Result, read, refuse_when, refuse_on, request_after_end, vote_after_end, decision_after_end,
  seq_not_increasing, no_request, failed_for, replayed,
}
use st_air_case.History.Refusals.{vote_refused, panel_decision_refused}
use st_air_case.History.Replay.Launching.{over}

abbrev pub asked : ℕ → String → String → Request
asked n hash action = record { request_index = n; request_hash = hash; request_action = action }

-- The case yield_request.
unfoldable pub on_request : ℕ → String → ℕ → Option String → Replay → Result
on_request n hash t p h = refuse_when (is_set h.agent_ended) request_after_end (
    read p (λ action.
      replayed (record h { last_time = t; pending = h.pending ++ asked n hash action ∷ [] })))

-- The case validator_voted.
unfoldable pub on_vote : ℕ → String → ℕ → Option ValidatorVoted → Replay → Result
on_vote n hash t p h = read p (λ v. refuse_when (is_set (over h)) vote_after_end (
    refuse_on (vote_refused h v) (
      replayed (record h {
        last_time = t;
        votes = h.votes ++ record { voted = v; vote_index = n; vote_hash = hash } ∷ [];
      }))))

-- Whether a waiting request is the one that a decision names; a decision of an old chain names none
-- and takes the oldest of its kind.
abbrev pub answers : Decided → Request → Bool
answers d r =
    if is_set d.request_entry
    then str_eq r.request_hash d.request_entry
    else str_eq r.request_action d.action_type

abbrev pub skip : Request → Option (Request × List Request) → Option (Request × List Request)
skip r none = none
skip r (some f) = some (f.0, r ∷ f.1)

-- The first request that a decision answers, and the others.
unfoldable pub take_request : Decided → List Request → Option (Request × List Request)
take_request d [] = none
take_request d (r ∷ rs) =
    let rest = take_request d rs in if answers d r then some (r, rs) else skip r rest

-- A decision that used up request `f.0`.
unfoldable pub use_request :
    ℕ → String → ℕ → Decided → Replay → Option (Request × List Request) → Result
use_request n hash t d h none = failed_for no_request
use_request n hash t d h (some f) =
    let made : Decision = record {
      decided = d;
      decision_index = n;
      decision_hash = hash;
      request = some f.0;
    } in
    refuse_when (not (str_eq f.0.request_action d.action_type)) no_request (
      refuse_on (panel_decision_refused h made) (
        replayed (record h {
          last_time = t;
          last_decided = d.seq;
          pending = f.1;
          decisions = h.decisions ++ made ∷ [];
        })))

-- The case yield_decided.
unfoldable pub on_decided : ℕ → String → ℕ → Option Decided → Replay → Result
unfolding use_request
on_decided n hash t p h = read p (λ d. refuse_when (is_set h.run_ended) decision_after_end (
    refuse_when (not (ltb_ℤ h.last_decided d.seq)) seq_not_increasing (
      if str_eq d.action_type "final_review"
      then replayed (record h {
        last_time = t;
        last_decided = d.seq;
        decisions =
            h.decisions
            ++ record { decided = d; decision_index = n; decision_hash = hash; request = none }
              ∷ [];
      })
      else refuse_when (is_set h.agent_ended) decision_after_end
          (use_request n hash t d h (take_request d h.pending)))))

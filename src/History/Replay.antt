-- ===== src/History/Replay.antt =====
-- history.go: `replay`, the fold over a chain. The cases of its switch are functions here and in the
-- children; `n` is the position of an entry, from 1, and `t` its time.
pub mod Launching
pub mod Deciding
pub mod Delivering
use st_air_case.Prelude.{
  ℕ, suc, ◌+◌, ◌-◌, ltb, leb, ◌==◌, ℤ, pos, diff, ◌+ℤ◌, ltb_ℤ, eqb_ℤ, pos_part, String, Bool, true,
  false, not, ◌&&◌, ◌||◌, Option, none, some, List, [], ◌∷◌, ◌++◌, str_eq, length, if◌then◌else◌,
}
use st_air_case.History.Payload.{
  Bound, Resumed, LaunchClaimed, LaunchEnded, LaunchAcknowledged, PolicySnapshot, InitiatorSigned,
  AgentSession, StateEmit, ShellRan, Decided, ValidatorVoted, PhaseChecked, AwaitingReview,
  ReviewDecided, DeliveryAuthorized, Delivered, EvidenceFailed, SourceDirty, Ended, Event,
  event_type, Entry, class_of, class_fits, known_outcome, run_bound, run_resumed, launch_claimed,
  launch_ended, launch_acknowledged, policy_snapshot, initiator_signed, agent_session, state_emit,
  shell_ran, drift_halt, run_path, evidence_failed, certificate_failed, recovery_repaired,
  yield_request, source_dirty, validator_voted, yield_decided, phase_was_checked,
  delivery_authorized, awaiting_review, review_accepted, review_rejected, commit_prepared,
  certificate_issued, run_recovered, review_delivered, other,
}
use st_air_case.History.State.{
  Request, Decision, Vote, Launch, Review, Delivery, Authorization, Ending, Replay, no_check,
  new_replay, is_set, first_of, last_of, update_last, open_launch, lost,
}
use st_air_case.History.Grammar.{
  Reason, Result, read, refuse_when, refuse_on, is_some, some_and, begins_with_other, bound_twice,
  unreadable, resumed_after_end, resumed_with_open_launch, launch_after_end, launched_while_open,
  wrong_attempt, outcome_after_end, no_open_launch, unknown_outcome, unfit_class,
  acknowledged_after_end, no_lost_launch, already_acknowledged, request_after_end, vote_after_end,
  decision_after_end, seq_not_increasing, no_request, already_authorized, follows_authorization,
  no_panel, not_on_panel, bad_verdict, votes_on_nothing, voted_twice, other_panel, missing_vote,
  disagreeing_vote, names_no_check, not_latest_check, other_tree, check_failed, offered_review,
  other_mode, other_terms, unsigned_policy, other_policy, failed_for, replayed,
}
use st_air_case.History.Refusals.{
  contains, is_nil, first_case, waits, vote_refused, votes_on, verdict_of, join, votes_problem,
  by_panel, wanted, panel_decision_refused, is_check, is_check_at, named, authorization_refused,
}
use Launching.*
use Deciding.*
use Delivering.*

-- The allow-list of events after an authorization.
abbrev pub after_authorization : List String
after_authorization =
    "commit_prepared" ∷ "certificate_issued" ∷ "run_recovered" ∷ "recovery_repaired" ∷ "check_ran"
    ∷ "certificate_failed" ∷ "evidence_failed" ∷ "launch_ended" ∷ "run_path" ∷ "rolled_back" ∷ []

abbrev pub is_bound : Event → Bool
is_bound (run_bound p) = true
is_bound _ = false

-- The case initiator_signed: a record from before the signature was kept names nobody.
abbrev signer : InitiatorSigned → Replay → Option InitiatorSigned
signer p h = if is_set p.signature then some p else h.initiator

-- The case phase_checked.
unfoldable pub on_checked : ℕ → String → ℕ → Option PhaseChecked → Replay → Result
on_checked n hash t p h = read p (λ c. replayed (record h {
  last_time = t;
  reviewed_since = false;
  end = record (h.end) { checked = n; checked_entry = hash; check = c };
}))

-- The cases that only record what the entry says.
unfoldable pub on_note : ℕ → Event → Replay → Result
on_note t (policy_snapshot p) h =
    read p (λ c. replayed (record h { last_time = t; policy = some c }))
on_note t (initiator_signed p) h =
    read p (λ c. replayed (record h { last_time = t; initiator = signer c h }))
on_note t (agent_session p) h = read p (λ c.
    replayed (record h { last_time = t; session = if is_set c.session_id then c else h.session }))
on_note t (state_emit p) h =
    read p (λ c. replayed (record h { last_time = t; usage = h.usage ++ c ∷ [] }))
on_note t (shell_ran p) h = read p (λ c. replayed (record h {
  last_time = t;
  shells_ran = suc h.shells_ran;
  shells_sandboxed = if c.sandboxed then suc h.shells_sandboxed else h.shells_sandboxed;
}))
on_note t (drift_halt p) h = read p (λ why.
    replayed
      (record h { last_time = t; halted = true; end = record (h.end) { halt_reason = why } }))
on_note t (run_path p) h =
    read p
      (λ c. replayed (record h { last_time = t; end = record (h.end) { segment_ended = some c } }))
on_note t (evidence_failed p) h = read p (λ c. replayed (record h {
  last_time = t;
  end = record (h.end) { commit = c.failed_commit; evidence = c.errors };
}))
on_note t (certificate_failed p) h =
    read p (λ c. replayed (record h { last_time = t; end = record (h.end) { commit = c } }))
on_note t (recovery_repaired p) h = read p (λ c.
    replayed (record h { last_time = t; end = record (h.end) { evidence = c.evidence_errors } }))
on_note t (source_dirty p) h = read p (λ c. replayed (record h { last_time = t; dirty = some c }))
on_note t _ h = replayed (record h { last_time = t })

-- The switch on the type of the event.
unfoldable pub on_event : ℕ → String → ℕ → List Entry → Event → Replay → Result
on_event n hash t before (run_bound p) h = on_bound n t p h
on_event n hash t before (run_resumed p) h = on_resumed n t p h
on_event n hash t before (launch_claimed p) h = on_claimed n hash t p h
on_event n hash t before (launch_ended p) h = on_ended t p h
on_event n hash t before (launch_acknowledged p) h = on_acknowledged p h
on_event n hash t before (yield_request p) h = on_request n hash t p h
on_event n hash t before (validator_voted p) h = on_vote n hash t p h
on_event n hash t before (yield_decided p) h = on_decided n hash t p h
on_event n hash t before (phase_was_checked p) h = on_checked n hash t p h
on_event n hash t before (delivery_authorized p) h = on_authorized n hash t before p h
on_event n hash t before (awaiting_review p) h = on_review n hash t before p h
on_event n hash t before (review_accepted p) h = on_review_decided "accepted" t p h
on_event n hash t before (review_rejected p) h = on_review_decided "rejected" t p h
on_event n hash t before (commit_prepared p) h = on_delivered "commit_prepared" t p h
on_event n hash t before (certificate_issued p) h = on_delivered "certificate_issued" t p h
on_event n hash t before (run_recovered p) h = on_delivered "run_recovered" t p h
on_event n hash t before (review_delivered p) h = on_delivered "review_delivered" t p h
on_event n hash t before e h = on_note t e h

-- Whether the event may not follow the authorization on the chain. A second authorization is refused
-- by its own rule.
abbrev pub is_barred : Replay → Event → Bool
is_barred h e =
    is_some h.auth
    && not (str_eq (event_type e) "delivery_authorized")
    && not (contains after_authorization (event_type e))

-- One turn of the loop: entry `e` after the entries `before`.
unfoldable pub step : List Entry → Entry → Replay → Result
step before e h =
    let n = suc (length before) in
    let h1 = record h { entries = h.entries ++ e.event_hash ∷ [] } in
    refuse_when (n == 1 && not (is_bound e.event)) begins_with_other (
      refuse_when (is_barred h1 e.event) follows_authorization
        (on_event n e.event_hash e.timestamp before e.event h1))

-- A GrammarError: the position of the entry and the reason.
pub data Outcome : Type 0 where
  refused : ℕ → Reason → Outcome
  accepted : Replay → Outcome

-- An error at position `n` ends the loop.
abbrev pub go_on : ℕ → Result → (Replay → Outcome) → Outcome
go_on n (failed_for r) k = refused n r
go_on n (replayed h) k = k h

-- The loop of `replay`, after the entries `before`.
unfoldable pub replay_from : List Entry → List Entry → Replay → Outcome
replay_from before [] h = accepted h
replay_from before (e ∷ es) h =
    go_on (suc (length before)) (step before e h) (λ h1. replay_from (before ++ e ∷ []) es h1)

abbrev pub finish : Outcome → Outcome
finish (refused n r) = refused n r
finish (accepted h) = accepted (record h { elapsed = h.elapsed +ℤ segment_time h })

-- `replay`
unfoldable pub replay : List Entry → Outcome
replay events = finish (replay_from [] events new_replay)

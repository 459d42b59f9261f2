-- ===== src/History/OutcomeExamples.antt =====
-- The theorems on what a history says, on sample runs.
use st_air_case.Prelude.{
  ◌↔◌, All, Memᴰ, str_eq, pos, true, false, none, some, [], ◌∷◌, ◌++◌, ◌≡◌, refl,
}
use st_air_case.History.Payload.{
  Decided, class_of, class_fits, run_bound, yield_request, yield_decided,
}
use st_air_case.History.State.{Decision, Replay, new_replay, open_launch}
use st_air_case.History.Refusals.{
  vote_refused, votes_on, verdict_of, join, votes_problem, panel_decision_refused, named,
  authorization_refused,
}
use st_air_case.History.Replay.{on_checked, on_note, on_event, step, replay_from, replay}
use st_air_case.History.Replay.Launching.{on_bound, on_claimed, on_ended}
use st_air_case.History.Replay.Deciding.{
  asked, on_request, on_vote, take_request, use_request, on_decided,
}
use st_air_case.History.Replay.Delivering.{on_authorized, on_delivered}
use st_air_case.History.Standing.{outcome_of}
use st_air_case.History.Requests.{made}
use st_air_case.History.Delivered.{is_delivered, IsNamedIn, outcome_of-IsNamedIn}
use st_air_case.History.Reviewed.{LastEdit, IsFinalReview, SameFiles, final_reviewed_iff}
use st_air_case.History.Parking.{Adopts, parked_iff}
use st_air_case.History.Queries.{
  final_reviewed, reviewed_in, adopted_at, approvals, maps_equal, parked,
}
use st_air_case.History.SampleRun.{
  entry, bound_to, decision_of, run, delivery_run, known, delivered_as, ended_run,
}

-- A delivered run, its final review and its parked proposals.
delivery_stands : is_delivered (outcome_of ended_run).0 ≡ true
unfolding replay replay_from step on_event on_bound on_claimed on_ended on_request on_vote
    on_decided use_request take_request on_checked on_authorized authorization_refused named
    vote_refused panel_decision_refused votes_problem votes_on verdict_of join open_launch on_note
    on_delivered class_of class_fits new_replay outcome_of
delivery_stands = refl

outcome_of-IsNamedIn_example : IsNamedIn delivery_run ended_run.end.commit
outcome_of-IsNamedIn_example =
    outcome_of-IsNamedIn delivery_run ended_run delivered_as delivery_stands

-- The run above with a final review of the same files behind it.
abbrev reviewed_run : Replay
reviewed_run = known (
    replay
      (run ++ entry "e11" 20 (yield_decided (some (decision_of (pos 2) "final_review" ""))) ∷ []))

review_counts : final_reviewed reviewed_run [] ≡ some true
unfolding replay replay_from step on_event on_bound on_claimed on_ended on_request on_vote
    on_decided use_request take_request on_checked on_authorized authorization_refused named
    vote_refused panel_decision_refused votes_problem votes_on verdict_of join open_launch on_note
    on_delivered class_of class_fits new_replay final_reviewed reviewed_in approvals maps_equal
review_counts = refl

abbrev edit_decision : Decision
edit_decision = made 8 "e8" (decision_of (pos 1) "file_edit" "e5") (some (asked 5 "e5" "file_edit"))

abbrev review_decision : Decision
review_decision = made 11 "e11" (decision_of (pos 2) "final_review" "") none

decisions_are : reviewed_run.decisions ≡ edit_decision ∷ review_decision ∷ []
unfolding replay replay_from step on_event on_bound on_claimed on_ended on_request on_vote
    on_decided use_request take_request on_checked on_authorized authorization_refused named
    vote_refused panel_decision_refused votes_problem votes_on verdict_of join open_launch on_note
    on_delivered class_of class_fits new_replay
decisions_are = refl

LastEdit-at_8 : LastEdit reviewed_run.decisions 8
LastEdit-at_8 =
    LastEdit.last_edit [] edit_decision (review_decision ∷ []) decisions_are
      (record { approves_it = refl; is_edit = refl }) (λ a. cc a.is_edit, tt)

final_reviewed_iff_example : (final_reviewed reviewed_run [] ≡ some true) ↔ (
    ((d : Decision) × Memᴰ d reviewed_run.decisions × IsFinalReview 8 d)
    × All (λ d. IsFinalReview 8 d → SameFiles d.files []) reviewed_run.decisions)
final_reviewed_iff_example = final_reviewed_iff reviewed_run [] 8 LastEdit-at_8

abbrev parked_decision : Decided
parked_decision = record (decision_of (pos 1) "file_edit" "e2") {
  source = "parked";
  approved = false;
}

abbrev parking_run : Replay
parking_run = known (
    replay (
      entry "e1" 10 (run_bound (some bound_to))
      ∷ entry "e2" 11 (yield_request (some "file_edit"))
      ∷ entry "e3" 12 (yield_decided (some parked_decision))
      ∷ []))

abbrev parked_at : Decision
parked_at = made 3 "e3" parked_decision (some (asked 2 "e2" "file_edit"))

one_is_parked : parked parking_run ≡ parked_at ∷ []
unfolding replay replay_from step on_event on_bound on_claimed on_ended on_request on_vote
    on_decided use_request take_request on_checked on_authorized authorization_refused named
    vote_refused panel_decision_refused votes_problem votes_on verdict_of join open_launch on_note
    on_delivered class_of class_fits new_replay parked adopted_at
one_is_parked = refl

parked_iff_example : Memᴰ parked_at (parked parking_run) ↔ (
    Memᴰ parked_at parking_run.decisions
    × (str_eq parked_at.source "parked" ≡ true)
    × All (λ x. ¬ Adopts parked_at.seq x) parking_run.decisions)
parked_iff_example = parked_iff parking_run parked_at

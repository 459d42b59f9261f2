-- ===== src/History/Examples.antt =====
-- The theorems on accepted and refused chains, on a sample run.
use st_air_case.Prelude.{Bool, true, false, some, [], ◌∷◌, ◌++◌, length, ◌≡◌, refl}
use st_air_case.History.Payload.{Entry, class_of, class_fits, commit_prepared, other}
use st_air_case.History.State.{Replay, new_replay, is_set, open_launch}
use st_air_case.History.Grammar.{Result, is_some, failed_for, replayed}
use st_air_case.History.Refusals.{
  vote_refused, votes_on, verdict_of, join, votes_problem, panel_decision_refused, named,
  authorization_refused,
}
use st_air_case.History.Replay.{on_checked, on_note, on_event, step, replay_from, replay}
use st_air_case.History.Replay.Launching.{on_bound, on_claimed, on_ended}
use st_air_case.History.Replay.Deciding.{on_request, on_vote, take_request, use_request, on_decided}
use st_air_case.History.Replay.Delivering.{on_authorized, on_delivered}
use st_air_case.History.Launches.{Numbered, replay-Numbered}
use st_air_case.History.Orderly.{IsOrderly}
use st_air_case.History.Decisions.{replay-IsOrderly}
use st_air_case.History.Delivery.{IsEarned}
use st_air_case.History.Latest.{IsLatest, replay-IsLatest}
use st_air_case.History.Panelled.{IsPanelled, replay-IsPanelled}
use st_air_case.History.Order.{BindsOnce, replay-BindsOnce, ended-stays}
use st_air_case.History.Authorized.{authorized-stays}
use st_air_case.History.Invariants.{step-Turn}
use st_air_case.History.SampleRun.{
  entry, run, authorization, delivery_run, known, authorized_as, delivered_as,
  delivery_is_authorized, ended_run,
}

replay-IsLatest_example :
    IsEarned
      (authorized_as (known (replay delivery_run)).auth)
      delivery_run
      (known (replay delivery_run))
    × IsLatest (known (replay delivery_run)).end.checked false delivery_run
replay-IsLatest_example =
    replay-IsLatest delivery_run (known (replay delivery_run))
      (authorized_as (known (replay delivery_run)).auth) delivered_as delivery_is_authorized

replay-IsPanelled_example : IsPanelled delivery_run (known (replay delivery_run))
replay-IsPanelled_example =
    replay-IsPanelled delivery_run (known (replay delivery_run)) delivered_as

replay-IsOrderly_example : IsOrderly (length delivery_run) (known (replay delivery_run))
replay-IsOrderly_example = replay-IsOrderly delivery_run (known (replay delivery_run)) delivered_as

replay-Numbered_example : Numbered 0 (known (replay delivery_run)).launches
replay-Numbered_example = replay-Numbered delivery_run (known (replay delivery_run)) delivered_as

replay-BindsOnce_example : BindsOnce delivery_run
replay-BindsOnce_example = replay-BindsOnce delivery_run (known (replay delivery_run)) delivered_as

abbrev known_turn : Result → Replay
known_turn (replayed h) = h
known_turn (failed_for r) = new_replay

abbrev is_replayed : Result → Bool
is_replayed (replayed h) = true
is_replayed (failed_for r) = false

replayed-known : (o : Result) → is_replayed o ≡ true → o ≡ replayed (known_turn o)
replayed-known (replayed h) e = refl
replayed-known (failed_for r) e = cc e

abbrev authorized_run : Replay
authorized_run = known (replay (run ++ authorization ∷ []))

abbrev prepared : Entry
prepared = entry "e12" 21 (commit_prepared (some (record { commit = "c1"; evidence_errors = [] })))

abbrev prepared_run : Replay
prepared_run = known_turn (step (run ++ authorization ∷ []) prepared authorized_run)

prepare_is_replayed : is_replayed (step (run ++ authorization ∷ []) prepared authorized_run) ≡ true
unfolding replay replay_from step on_event on_bound on_claimed on_ended on_request on_vote
    on_decided use_request take_request on_checked on_authorized authorization_refused named
    vote_refused panel_decision_refused votes_problem votes_on verdict_of join open_launch on_note
    on_delivered class_of class_fits new_replay
prepare_is_replayed = refl

run_is_authorized : is_some authorized_run.auth ≡ true
unfolding replay replay_from step on_event on_bound on_claimed on_ended on_request on_vote
    on_decided use_request take_request on_checked on_authorized authorization_refused named
    vote_refused panel_decision_refused votes_problem votes_on verdict_of join open_launch on_note
    on_delivered class_of class_fits new_replay
run_is_authorized = refl

authorized-stays_example :
    (prepared_run.auth ≡ authorized_run.auth)
    × (prepared_run.decisions ≡ authorized_run.decisions)
    × (prepared_run.pending ≡ authorized_run.pending)
    × (prepared_run.votes ≡ authorized_run.votes)
    × (length prepared_run.launches ≡ length authorized_run.launches)
    × (prepared_run.review ≡ authorized_run.review)
    × (prepared_run.reviewed_since ≡ authorized_run.reviewed_since)
    × (prepared_run.bound ≡ authorized_run.bound)
    × (prepared_run.policy ≡ authorized_run.policy)
    × (prepared_run.end.checked ≡ authorized_run.end.checked)
    × (prepared_run.end.check ≡ authorized_run.end.check)
authorized-stays_example =
    authorized-stays (run ++ authorization ∷ []) prepared authorized_run prepared_run
      run_is_authorized
      (step-Turn (run ++ authorization ∷ []) prepared authorized_run prepared_run (
        replayed-known (step (run ++ authorization ∷ []) prepared authorized_run)
          prepare_is_replayed))

abbrev rolled_back : Entry
rolled_back = entry "e14" 30 (other "rolled_back")

abbrev rolled_back_run : Replay
rolled_back_run = known_turn (step delivery_run rolled_back ended_run)

roll_back_is_replayed : is_replayed (step delivery_run rolled_back ended_run) ≡ true
unfolding replay replay_from step on_event on_bound on_claimed on_ended on_request on_vote
    on_decided use_request take_request on_checked on_authorized authorization_refused named
    vote_refused panel_decision_refused votes_problem votes_on verdict_of join open_launch on_note
    on_delivered class_of class_fits new_replay
roll_back_is_replayed = refl

run_is_ended : is_set ended_run.run_ended ≡ true
unfolding replay replay_from step on_event on_bound on_claimed on_ended on_request on_vote
    on_decided use_request take_request on_checked on_authorized authorization_refused named
    vote_refused panel_decision_refused votes_problem votes_on verdict_of join open_launch on_note
    on_delivered class_of class_fits new_replay
run_is_ended = refl

ended-stays_example :
    (rolled_back_run.decisions ≡ ended_run.decisions)
    × (rolled_back_run.votes ≡ ended_run.votes)
    × (rolled_back_run.launches ≡ ended_run.launches)
    × (rolled_back_run.segment ≡ ended_run.segment)
    × (rolled_back_run.run_ended ≡ ended_run.run_ended)
ended-stays_example = ended-stays delivery_run rolled_back ended_run rolled_back_run run_is_ended (
    step-Turn delivery_run rolled_back ended_run rolled_back_run
      (replayed-known (step delivery_run rolled_back ended_run) roll_back_is_replayed))

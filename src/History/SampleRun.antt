-- ===== src/History/SampleRun.antt =====
-- A run from its start to its delivery by policy, and variants of it that are refused.
use st_air_case.Prelude.{
  ℕ, ℤ, pos, String, Bool, true, false, Option, none, some, List, [], ◌∷◌, ◌++◌, ◌≡◌, refl,
}
use st_air_case.History.Payload.{
  Bound, Decided, ValidatorVoted, Event, Entry, class_of, class_fits, run_bound, launch_claimed,
  launch_ended, policy_snapshot, yield_request, validator_voted, yield_decided, phase_was_checked,
  delivery_authorized, commit_prepared, certificate_issued, other,
}
use st_air_case.History.State.{Authorization, Replay, new_replay, open_launch}
use st_air_case.History.Grammar.{no_request, follows_authorization}
use st_air_case.History.Refusals.{
  vote_refused, votes_on, verdict_of, join, votes_problem, panel_decision_refused, named,
  authorization_refused,
}
use st_air_case.History.Replay.{
  on_checked, on_note, on_event, step, Outcome, replay_from, replay, refused, accepted,
}
use st_air_case.History.Replay.Launching.{on_bound, on_claimed, on_ended}
use st_air_case.History.Replay.Deciding.{on_request, on_vote, take_request, use_request, on_decided}
use st_air_case.History.Replay.Delivering.{on_authorized, on_delivered}

abbrev pub entry : String → ℕ → Event → Entry
entry hash t e = record { event = e; event_hash = hash; timestamp = t }

abbrev pub bound_to : Bound
bound_to = record {
  base_sha = "b0";
  branch = "main";
  worktree = "/w";
  terms_sha256 = "terms";
  validator_models = "m1" ∷ "m2" ∷ [];
}

abbrev pub decision_of : ℤ → String → String → Decided
decision_of n action asked_at = record {
  seq = n;
  source = "validator:m1+m2";
  action_type = action;
  approved = true;
  request_sha256 = "";
  request_entry = asked_at;
  files = [];
  paths = "a.go" ∷ [];
  unconsumed = false;
  adopts = pos 0;
  validator_state = "";
}

abbrev pub vote_by : String → ValidatorVoted
vote_by m = record { vote_model = m; verdict = "approve"; vote_request = "e5" }

abbrev pub run : List Entry
run =
    entry "e1" 10 (run_bound (some bound_to))
    ∷ entry "e2" 11 (policy_snapshot (some (record { digest = "pol"; signed = true })))
    ∷ entry "e3" 12 (launch_claimed (some (record { attempt = pos 1; generation = "g" })))
    ∷ entry "e4" 13 (other "task_agreed")
    ∷ entry "e5" 14 (yield_request (some "file_edit"))
    ∷ entry "e6" 15 (validator_voted (some (vote_by "m1")))
    ∷ entry "e7" 16 (validator_voted (some (vote_by "m2")))
    ∷ entry "e8" 17 (yield_decided (some (decision_of (pos 1) "file_edit" "e5")))
    ∷ entry "e9" 18 (
        launch_ended (
          some (record {
            ended_attempt = pos 1;
            ended_generation = "g";
            outcome = "exited";
            class = "";
          })))
    ∷ entry "e10" 19 (
        phase_was_checked
          (some (record { checked_tree = "t1"; check_runs = []; passed = true; failed = "" })))
    ∷ []

abbrev pub authorization : Entry
authorization = entry "e11" 20 (
    delivery_authorized (
      some (record {
        auth_checked = "e10";
        auth_tree = "t1";
        auth_terms = "terms";
        auth_policy = "pol";
        auth_mode = "policy";
      })))

abbrev pub delivery_run : List Entry
delivery_run =
    run
    ++ authorization
      ∷ entry "e12" 21 (commit_prepared (some (record { commit = "c1"; evidence_errors = [] })))
      ∷ entry "e13" 22 (certificate_issued (some (record { commit = "c1"; evidence_errors = [] })))
      ∷ []

abbrev pub known : Outcome → Replay
known (accepted h) = h
known (refused n r) = new_replay

abbrev pub is_accepted : Outcome → Bool
is_accepted (accepted h) = true
is_accepted (refused n r) = false

pub accepted-known : (o : Outcome) → is_accepted o ≡ true → o ≡ accepted (known o)
accepted-known (accepted h) e = refl
accepted-known (refused n r) e = cc e

delivery_is_accepted : is_accepted (replay delivery_run) ≡ true
unfolding replay replay_from step on_event on_bound on_claimed on_ended on_request on_vote
    on_decided use_request take_request on_checked on_authorized authorization_refused named
    vote_refused panel_decision_refused votes_problem votes_on verdict_of join open_launch on_note
    on_delivered class_of class_fits new_replay
delivery_is_accepted = refl

pub delivered_as : replay delivery_run ≡ accepted (known (replay delivery_run))
delivered_as = accepted-known (replay delivery_run) delivery_is_accepted

abbrev pub authorized_as : Option Authorization → Authorization
authorized_as (some a) = a
authorized_as none = record {
  authorized = record {
    auth_checked = "";
    auth_tree = "";
    auth_terms = "";
    auth_policy = "";
    auth_mode = "";
  };
  auth_index = 0;
  auth_hash = "";
}

pub delivery_is_authorized :
    (known (replay delivery_run)).auth ≡ some (authorized_as (known (replay delivery_run)).auth)
unfolding replay replay_from step on_event on_bound on_claimed on_ended on_request on_vote
    on_decided use_request take_request on_checked on_authorized authorization_refused named
    vote_refused panel_decision_refused votes_problem votes_on verdict_of join open_launch on_note
    on_delivered class_of class_fits new_replay
delivery_is_authorized = refl

delivery_elapsed : (known (replay delivery_run)).elapsed ≡ pos 12
unfolding replay replay_from step on_event on_bound on_claimed on_ended on_request on_vote
    on_decided use_request take_request on_checked on_authorized authorization_refused named
    vote_refused panel_decision_refused votes_problem votes_on verdict_of join open_launch on_note
    on_delivered class_of class_fits new_replay
delivery_elapsed = refl

-- A vote that comes after the authorization.
abbrev pub late_vote : Entry
late_vote = entry "e12" 21 (validator_voted (some (vote_by "m1")))

pub late_vote_is_refused :
    replay (run ++ authorization ∷ late_vote ∷ []) ≡ refused 12 follows_authorization
unfolding replay replay_from step on_event on_bound on_claimed on_ended on_request on_vote
    on_decided use_request take_request on_checked on_authorized authorization_refused named
    vote_refused panel_decision_refused votes_problem votes_on verdict_of join open_launch on_note
    on_delivered class_of class_fits new_replay
late_vote_is_refused = refl

second_decision_is_refused :
    replay
      (run ++ entry "e11" 20 (yield_decided (some (decision_of (pos 2) "file_edit" "e5"))) ∷ [])
    ≡ refused 11 no_request
unfolding replay replay_from step on_event on_bound on_claimed on_ended on_request on_vote
    on_decided use_request take_request on_checked on_authorized authorization_refused named
    vote_refused panel_decision_refused votes_problem votes_on verdict_of join open_launch on_note
    on_delivered class_of class_fits new_replay
second_decision_is_refused = refl

abbrev pub ended_run : Replay
ended_run = known (replay delivery_run)

-- ===== src/History/Payload.antt =====
-- src/internal/history/payload.go and events.go: the events of a chain, each with the fields that
-- the replay or a query reads. Where a field is absent from the JSON it has Go's zero value.
use st_air_case.Prelude.{ℕ, ℤ, String, Bool, false, ◌||◌, Option, List, str_eq, if◌then◌else◌}

pub record Bound : Type 0 where
  pub base_sha : String
  pub branch : String
  pub worktree : String
  pub terms_sha256 : String
  pub validator_models : List String

pub record Resumed : Type 0 where
  pub ack_drift : Bool
  pub ack_unknown : ℤ

pub record LaunchClaimed : Type 0 where
  pub attempt : ℤ
  pub generation : String

pub record LaunchEnded : Type 0 where
  pub ended_attempt : ℤ
  pub ended_generation : String
  pub outcome : String
  pub class : String

pub record LaunchAcknowledged : Type 0 where
  pub acked_attempt : ℤ
  pub acked_generation : String

pub record PolicySnapshot : Type 0 where
  pub digest : String
  pub signed : Bool

pub record InitiatorSigned : Type 0 where
  pub principal : String
  pub signature : String

pub record AgentSession : Type 0 where
  pub agent : String
  pub session_id : String
  pub mode : String

pub record StateEmit : Type 0 where
  pub model : String
  pub input_tokens : ℤ
  pub output_tokens : ℤ

pub record ShellRan : Type 0 where
  pub command : String
  pub sandboxed : Bool

-- `files`, a Go map, is a list of pairs whose first parts are distinct.
pub record Decided : Type 0 where
  pub seq : ℤ
  pub source : String
  pub action_type : String
  pub approved : Bool
  pub request_sha256 : String
  pub request_entry : String
  pub files : List (String × String)
  pub paths : List String
  pub unconsumed : Bool
  pub adopts : ℤ
  pub validator_state : String

pub record ValidatorVoted : Type 0 where
  pub vote_model : String
  pub verdict : String
  pub vote_request : String

-- A command that was run as a check, and how it ended.
pub record CheckRun : Type 0 where
  pub check_command : String
  pub exit_code : ℤ

pub record PhaseChecked : Type 0 where
  pub checked_tree : String
  pub check_runs : List CheckRun
  pub passed : Bool
  pub failed : String

pub record AwaitingReview : Type 0 where
  pub review_tree : String
  pub review_files : List (String × String)
  pub phase_checked : String

pub record ReviewDecided : Type 0 where
  pub reviewed : String
  pub feedback : String

pub record DeliveryAuthorized : Type 0 where
  pub auth_checked : String
  pub auth_tree : String
  pub auth_terms : String
  pub auth_policy : String
  pub auth_mode : String

pub record Delivered : Type 0 where
  pub commit : String
  pub evidence_errors : List String

pub record EvidenceFailed : Type 0 where
  pub failed_commit : String
  pub errors : List String

pub record SourceDirty : Type 0 where
  pub tracked : ℤ
  pub untracked : ℤ
  pub names_sha256 : String

pub record Ended : Type 0 where
  pub status : String

-- One constructor for each event that the replay has a case for, and `other` for the rest. The
-- payload is what json.Unmarshal makes of the entry: `none` where it fails.
pub data Event : Type 0 where
  run_bound : Option Bound → Event
  run_resumed : Option Resumed → Event
  launch_claimed : Option LaunchClaimed → Event
  launch_ended : Option LaunchEnded → Event
  launch_acknowledged : Option LaunchAcknowledged → Event
  policy_snapshot : Option PolicySnapshot → Event
  initiator_signed : Option InitiatorSigned → Event
  agent_session : Option AgentSession → Event
  state_emit : Option StateEmit → Event
  shell_ran : Option ShellRan → Event
  drift_halt : Option String → Event
  run_path : Option Ended → Event
  evidence_failed : Option EvidenceFailed → Event
  certificate_failed : Option String → Event
  recovery_repaired : Option Delivered → Event
  yield_request : Option String → Event
  source_dirty : Option SourceDirty → Event
  validator_voted : Option ValidatorVoted → Event
  yield_decided : Option Decided → Event
  phase_was_checked : Option PhaseChecked → Event
  delivery_authorized : Option DeliveryAuthorized → Event
  awaiting_review : Option AwaitingReview → Event
  review_accepted review_rejected : Option ReviewDecided → Event
  commit_prepared certificate_issued run_recovered review_delivered : Option Delivered → Event
  other : String → Event

-- The name that an event is written under: `EventType`.
abbrev pub event_type : Event → String
event_type (run_bound p) = "run_bound"
event_type (run_resumed p) = "run_resumed"
event_type (launch_claimed p) = "launch_claimed"
event_type (launch_ended p) = "launch_ended"
event_type (launch_acknowledged p) = "launch_acknowledged"
event_type (policy_snapshot p) = "policy_snapshot"
event_type (initiator_signed p) = "initiator_signed"
event_type (agent_session p) = "agent_session"
event_type (state_emit p) = "state_emit"
event_type (shell_ran p) = "shell_ran"
event_type (drift_halt p) = "drift_halt"
event_type (run_path p) = "run_path"
event_type (evidence_failed p) = "evidence_failed"
event_type (certificate_failed p) = "certificate_failed"
event_type (recovery_repaired p) = "recovery_repaired"
event_type (yield_request p) = "yield_request"
event_type (source_dirty p) = "source_dirty"
event_type (validator_voted p) = "validator_voted"
event_type (yield_decided p) = "yield_decided"
event_type (phase_was_checked p) = "phase_checked"
event_type (delivery_authorized p) = "delivery_authorized"
event_type (awaiting_review p) = "awaiting_review"
event_type (review_accepted p) = "review_accepted"
event_type (review_rejected p) = "review_rejected"
event_type (commit_prepared p) = "commit_prepared"
event_type (certificate_issued p) = "certificate_issued"
event_type (run_recovered p) = "run_recovered"
event_type (review_delivered p) = "review_delivered"
event_type (other s) = s

-- An entry as the replay reads it; its time is in nanoseconds.
pub record Entry : Type 0 where
  pub event : Event
  pub event_hash : String
  pub timestamp : ℕ

-- `ClassOf`
unfoldable pub class_of : String → String
class_of outcome =
    if str_eq outcome "failed"
    then "host_exit"
    else if str_eq outcome "unresponsive"
    then "cleanup"
    else if str_eq outcome "unknown_after_restart"
    then "uncertain_dispatch"
    else ""

-- `classFits`
unfoldable pub class_fits : String → String → Bool
class_fits class outcome =
    if str_eq class "rejected" || str_eq class "host_exit"
    then str_eq outcome "failed"
    else if str_eq class "cleanup"
    then str_eq outcome "unresponsive"
    else if str_eq class "uncertain_dispatch"
    then str_eq outcome "unknown_after_restart"
    else if str_eq class "storage"
    then str_eq outcome "exited" || str_eq outcome "failed" || str_eq outcome "stopped"
    else false

-- The outcomes that a launch_ended may name.
abbrev pub known_outcome : String → Bool
known_outcome outcome =
    str_eq outcome "exited"
    || str_eq outcome "failed"
    || str_eq outcome "stopped"
    || str_eq outcome "unresponsive"
    || str_eq outcome "unknown_after_restart"

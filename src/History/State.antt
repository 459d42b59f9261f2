-- ===== src/History/State.antt =====
-- src/internal/history/history.go: what a replay knows. `Replay` is `History` with the variables of
-- the loop of `replay`; the fields that only texts read (`RunID`) are left out.
use st_air_case.Prelude.{
  ℕ, ℤ, pos, String, Bool, false, not, ◌||◌, Option, none, some, List, [], ◌∷◌, str_eq,
  if◌then◌else◌,
}
use st_air_case.History.Payload.{
  Bound, PolicySnapshot, InitiatorSigned, AgentSession, StateEmit, SourceDirty, Decided,
  ValidatorVoted, PhaseChecked, AwaitingReview, DeliveryAuthorized, Delivered, Ended, LaunchClaimed,
}

-- A request with its position on the chain, from 1, and its entry hash.
pub record Request : Type 0 where
  pub request_index : ℕ
  pub request_hash : String
  pub request_action : String

-- `request` is the request that the decision used up; none for a final review.
pub record Decision : Type 0 where
  pub decided : Decided
  pub open decided use *
  pub decision_index : ℕ
  pub decision_hash : String
  pub request : Option Request

pub record Vote : Type 0 where
  pub voted : ValidatorVoted
  pub open voted use *
  pub vote_index : ℕ
  pub vote_hash : String

-- `outcome` is "" while the launch is open.
pub record Launch : Type 0 where
  pub claimed : LaunchClaimed
  pub open claimed use *
  pub launch_index : ℕ
  pub launch_hash : String
  pub launch_outcome : String
  pub launch_class : String
  pub acked : Bool

pub record Review : Type 0 where
  pub offered : AwaitingReview
  pub open offered use *
  pub review_index : ℕ
  pub review_hash : String
  pub checks : Option PhaseChecked
  pub review_decided : String

pub record Delivery : Type 0 where
  pub delivery_event : String
  pub delivered : Delivered
  pub open delivered use *

-- An authorization with its position and its entry hash.
pub record Authorization : Type 0 where
  pub authorized : DeliveryAuthorized
  pub open authorized use *
  pub auth_index : ℕ
  pub auth_hash : String

-- `ending`: what the chain says about how the run ended. `checked` is 0 before any phase_checked.
pub record Ending : Type 0 where
  pub seg_start : ℕ
  pub segment_ended : Option Ended
  pub halt_reason : String
  pub checked : ℕ
  pub checked_entry : String
  pub check : PhaseChecked
  pub commit : String
  pub recovered : Bool
  pub evidence : List String

pub record Replay : Type 0 where
  pub bound : Bound
  pub decisions : List Decision
  pub last_decided : ℤ
  pub policy : Option PolicySnapshot
  pub initiator : Option InitiatorSigned
  pub session : AgentSession
  pub segment : ℕ
  pub elapsed : ℤ
  pub halted : Bool
  pub usage : List StateEmit
  pub shells_ran : ℕ
  pub shells_sandboxed : ℕ
  pub launches : List Launch
  pub dirty : Option SourceDirty
  pub votes : List Vote
  pub review : Option Review
  pub auth : Option Authorization
  pub sealed : String
  pub deliveries : List Delivery
  pub entries : List String
  pub end : Ending
  -- The variables of the loop.
  pub pending : List Request
  pub agent_ended : String
  pub run_ended : String
  pub reviewed_since : Bool
  pub seg_started : ℕ
  pub last_time : ℕ

abbrev pub no_check : PhaseChecked
no_check = record { checked_tree = ""; check_runs = []; passed = false; failed = "" }

-- The state before the first entry.
unfoldable pub new_replay : Replay
new_replay = record {
  bound = record {
    base_sha = "";
    branch = "";
    worktree = "";
    terms_sha256 = "";
    validator_models = [];
  };
  decisions = [];
  last_decided = pos 0;
  policy = none;
  initiator = none;
  session = record { agent = ""; session_id = ""; mode = "" };
  segment = 1;
  elapsed = pos 0;
  halted = false;
  usage = [];
  shells_ran = 0;
  shells_sandboxed = 0;
  launches = [];
  dirty = none;
  votes = [];
  review = none;
  auth = none;
  sealed = "";
  deliveries = [];
  entries = [];
  end = record {
    seg_start = 0;
    segment_ended = none;
    halt_reason = "";
    checked = 0;
    checked_entry = "";
    check = no_check;
    commit = "";
    recovered = false;
    evidence = [];
  };
  pending = [];
  agent_ended = "";
  run_ended = "";
  reviewed_since = false;
  seg_started = 0;
  last_time = 0;
}

abbrev pub is_set : String → Bool
is_set s = not (str_eq s "")

-- `firstOf` of two texts.
abbrev pub first_of : String → String → String
first_of a b = if is_set a then a else b

abbrev pub last_of {ℓ} : {A : Type ℓ} → List A → Option A
last_of [] = none
last_of (x ∷ []) = some x
last_of (x ∷ y ∷ ys) = last_of (y ∷ ys)

-- A change of the last element, through a Go pointer to it.
abbrev pub update_last {ℓ} : {A : Type ℓ} → (A → A) → List A → List A
update_last f [] = []
update_last f (x ∷ []) = f x ∷ []
update_last f (x ∷ y ∷ ys) = x ∷ update_last f (y ∷ ys)

abbrev open_one : Option Launch → Option Launch
open_one none = none
open_one (some l) = if str_eq l.launch_outcome "" then some l else none

-- `OpenLaunch`: the last launch while no outcome of it is on the chain.
unfoldable pub open_launch : List Launch → Option Launch
open_launch ls = open_one (last_of ls)

-- `Lost`: the end of the launch was never established.
unfoldable pub lost : Launch → Bool
lost l =
    str_eq l.launch_outcome ""
    || str_eq l.launch_outcome "unknown_after_restart"
    || str_eq l.launch_outcome "unresponsive"

-- ===== src/Orchestrator/Deciders.antt =====
-- src/internal/orchestrator/decide.go: who decides a proposal, in a fixed order. The drift supervisor, the
-- policy, the bars and the panel of reviewer models are those of their modules. What other parts find
-- out about one proposal comes with it, in `Found`: the state that `approvals.derive` computes with the
-- facts and the guards on it, how the checks of `evidenceGate` ended, what the signal and the person say,
-- and how the models answer. Texts for people are kept as data.
use st_air_case.Prelude.{
  ℕ, suc, String, Bool, true, false, Option, none, some, List, [], ◌∷◌, any, str_eq, if◌then◌else◌,
}
use st_air_case.Domain.{ProposedEdit}
use st_air_case.Drift.{Supervisor, Why}
use st_air_case.Policy.{Engine, Facts, PolicyDecision}
use st_air_case.Policy.Quotas.{Exhausted, within}
use st_air_case.Orchestrator.Files.{FileError}
use st_air_case.Orchestrator.Files.Sizes.{Oversized}
use st_air_case.Orchestrator.Guard.{GuardReason}
use st_air_case.Orchestrator.Bars.{Bar, Terms}
use st_air_case.Orchestrator.Panel.{Validator, Answer, Note, silent, ValidatorVote, human_decided}

pub data Source : Type 0 where
  orchestrator declared drift policy task evidence validator parked operator : Source

-- What decides about a run, set before its first proposal.
pub record Setting (Score : Type 0) : Type 0 where
  pub has_approvals : Bool
  pub engine : Engine Score
  pub terms : Terms
  pub by_task : Bool
  pub on_evidence : Bool
  pub away : Bool
  pub declared_commands : List String
  pub declared_tools : List String
  pub has_signal : Bool

-- What changes from proposal to proposal. `panel` is none without a validator.
pub record Deciders : Type 0 where
  pub supervisor : Supervisor
  pub panel : Option Validator
  pub parked_count : ℕ
  pub total : ℕ
  pub auto_approved : ℕ
  pub task_approved : Bool

-- The state a proposal would lead to: its paths in order, its facts, and the guards it sets off.
pub record Derived : Type 0 where
  pub paths : List String
  pub facts : Facts
  pub guards : List GuardReason

-- `derive` and `recordTooBig`: an error, which may be a bad path, or the derived state.
pub data Derivation : Type 0 where
  bad_path not_applicable : FileError → Derivation
  too_large : Oversized → Derivation
  derives : Derived → Derivation

pub record Found : Type 0 where
  pub derivation : Derivation
  pub checks_failed : Option String
  pub signal_says : Option String
  pub person_approves : Bool
  pub unreadable : Option String
  pub ask : ℕ → String → Answer

-- What a person is told besides the drift and the guards.
pub data ReviewNote : Type 0 where
  nothing_said : ReviewNote
  barred : Bar → ReviewNote
  no_evidence signalled : String → ReviewNote
  panel_says : Note → ReviewNote

pub record Ruling : Type 0 where
  pub approved : Bool
  pub source : Source
  pub next : Option Derived
  pub drift_why : List Why
  pub scope_why : Option Bar
  pub halt : Bool
  pub refused : Bool
  -- What `approval_path_escape` is written with.
  pub path_escape : Option FileError
  pub votes : List ValidatorVote
  pub review : ReviewNote

-- The deciders after a proposal and the ruling on it.
pub record Settled : Type 0 where
  pub after : Deciders
  pub ruling : Ruling

abbrev pub paths_of : Option Derived → List String
paths_of none = []
paths_of (some n) = n.paths

abbrev pub facts_of : Option Derived → Facts
facts_of none = record { files = []; total_lines = 0 }
facts_of (some n) = n.facts

abbrev pub guards_of : Option Derived → List GuardReason
guards_of none = []
guards_of (some n) = n.guards

abbrev pub is_some {ℓ} : {A : Type ℓ} → Option A → Bool
is_some none = false
is_some (some a) = true

abbrev pub is_within : Exhausted → Bool
is_within within = true
is_within _ = false

abbrev pub is_operator : Source → Bool
is_operator operator = true
is_operator _ = false

-- A ruling before anyone decided, on what the proposal derives.
abbrev pub open_ruling : Option Derived → Ruling
open_ruling n = record {
  approved = false;
  source = orchestrator;
  next = n;
  drift_why = [];
  scope_why = none;
  halt = false;
  refused = false;
  path_escape = none;
  votes = [];
  review = nothing_said;
}

-- `len(edits) == 1` and a test on the only edit.
abbrev pub only_edit : (ProposedEdit → Bool) → List ProposedEdit → Bool
only_edit p [] = false
only_edit p (e ∷ []) = p e
only_edit p (e ∷ f ∷ rest) = false

abbrev pub contains : List String → String → Bool
contains xs s = any (λ x. str_eq x s) xs

-- A person decides; while away the proposal is parked for the owner, and the agent goes on.
unfoldable pub human : {Score : Type 0} → Setting Score → Found → Deciders → Ruling → Settled
human c found d rl =
    if c.away
    then record {
      after = record d { parked_count = suc d.parked_count };
      ruling = record rl { source = parked; approved = false };
    }
    else record {
      after = d;
      ruling = record rl { source = operator; approved = found.person_approves };
    }

-- The panel's note goes with the proposal to a person; one that says something ends a run of rejections.
unfoldable pub noted : Validator → Note → Validator
noted v silent = v
noted v note = human_decided v

unfoldable pub auto_count : PolicyDecision → ℕ → ℕ
auto_count dec n = if dec.approved then suc n else n

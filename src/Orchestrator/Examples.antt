-- ===== src/Orchestrator/Examples.antt =====
-- Runs of the coordinator's decisions: a change on evidence with a panel of two models, a proposal of an
-- away run, and a path; texts are compared as they stand and digests are the texts themselves.
use st_air_case.Prelude.{
  ℕ, pos, String, ◌≤◌, ◌<◌, ◌≡◌, refl, inr, true, false, ◌||◌, none, some, List, [], ◌∷◌, arith,
  str_eq, ◌==◌, leb, if◌then◌else◌,
}
use st_air_case.Domain.{YieldRequest, action_file_edit}
use st_air_case.Glob.{match_any_fold, match_any, match_glob, glob_match_parts, split, has_stars}
use st_air_case.GoLibrary.{GoLibrary}
use st_air_case.Drift.{new_supervisor, check, in_scope}
use st_air_case.Policy.{Limits, evaluate}
use st_air_case.Policy.Quotas.{check_limits}
use st_air_case.Plan.RunLimits.{Permits}
use st_air_case.Orchestrator.Paths.{Kind, missing, directory}
use st_air_case.Orchestrator.Bars.{first, sensitive, protected_bar, sensitive_bar, outside_scope}
use st_air_case.Orchestrator.Panel.{
  Note, left_open, Validator, Answer, approves, poll, hear, conclude, decided, vote_approve,
  validator_reject_limit,
}
use st_air_case.Orchestrator.Panel
use st_air_case.Orchestrator.Panel.Unanimous.{IsUnanimous, decide-IsUnanimous, decide-counts}
use st_air_case.Orchestrator.Deciders.{Setting, Deciders, derives, Found, human, noted, is_operator}
use st_air_case.Orchestrator.Rulings.{decide}
use st_air_case.Orchestrator.Rulings.Keeping.{is_automatic}
use st_air_case.Orchestrator.Rulings.Clearance.{IsClear, decide-IsClear}
use st_air_case.Orchestrator.Rulings.Away.{is_parked, decide-Unattended}
use st_air_case.Orchestrator.Rulings.Marks.{is_shared, is_validator, is_unreviewed, decide-Marked}
use st_air_case.Orchestrator.Rulings.Counters.{by_rule, decide-within_limit}

abbrev plain : GoLibrary
plain = record {
  Score = ℕ;
  is_zero = λ n. n == 0;
  at_least = λ a b. leb b a;
  to_lower = λ s. s;
  equal_fold = str_eq;
  path_match = λ p n. some (str_eq p "*" || str_eq p n);
}

abbrev same : String → String
same s = s

abbrev limits : Limits
limits = record {
  max_auto_approved = pos 3;
  max_total_yields = pos 0;
  run = record {
    checkpoint_every = pos 0;
    max_files_changed = pos 0;
    max_scope_violations = pos 0;
    max_run_secs = pos 0;
  };
}

abbrev two_models : Validator
two_models = record {
  models = "a" ∷ "b" ∷ [];
  approvals = 0;
  reject_run = 1;
  unreviewed = false;
  no_sampling = true;
}

-- Every model approves, and its vote is put on the chain.
abbrev agree : ℕ → String → Answer
agree n m = record { reply = m; review = approves "fine"; recorded = true }

abbrev setting : Setting ℕ
setting = record {
  has_approvals = true;
  engine = record {
    engine_version = pos 1;
    rules = [];
    limits = limits;
    allow_blanket_deny = false;
  };
  terms = record {
    protected_paths = "checks/**" ∷ [];
    sensitive_paths = [];
    scope = "docs/**" ∷ [];
  };
  by_task = true;
  on_evidence = true;
  away = true;
  declared_commands = [];
  declared_tools = [];
  has_signal = false;
}

abbrev before : Deciders
before = record {
  supervisor = new_supervisor ("docs/**" ∷ []) limits.run;
  panel = some two_models;
  parked_count = 0;
  total = 4;
  auto_approved = 2;
  task_approved = false;
}

abbrev request : YieldRequest ℕ
request = record {
  agent_name = "writer";
  action_type = action_file_edit;
  proposed_edits = [];
  reasoning_trace = "";
  confidence_score = 0;
  batch_id = "";
  review_after = false;
  sandboxed = false;
  drift = "";
  guard_note = "";
  review_note = "";
  adopts = pos 0;
}

-- A change of one file, whose checks pass.
abbrev found_for : String → Found
found_for path = record {
  derivation =
      derives
        (record { paths = path ∷ []; facts = record { files = []; total_lines = 0 }; guards = [] });
  checks_failed = none;
  signal_says = none;
  person_approves = true;
  unreadable = none;
  ask = agree;
}

abbrev docs : Found
docs = found_for "docs/a.md"

on_evidence : is_automatic (decide plain same setting docs request before).ruling.source ≡ true
unfolding decide human noted check in_scope check_limits evaluate protected_bar sensitive_bar
    sensitive first outside_scope match_any_fold match_any match_glob glob_match_parts split
    has_stars Panel.decide poll hear conclude new_supervisor
on_evidence = refl

decide-IsClear_example :
    IsClear plain same setting docs request before
      (decide plain same setting docs request before).ruling.next
decide-IsClear_example = decide-IsClear plain same setting docs request before on_evidence

decide-Unattended_example :
    let o = decide plain same setting (found_for "docs/go.mod") request before in
    (is_operator o.ruling.source ≡ false)
    × (o.after.parked_count ≡ (if is_parked o.ruling.source then 1 else 0))
    × (is_parked o.ruling.source ≡ true → o.ruling.approved ≡ false)
decide-Unattended_example =
    decide-Unattended plain same setting (found_for "docs/go.mod") request refl before

-- The change of a build file is parked.
build_file :
    (decide plain same setting (found_for "docs/go.mod") request before).after.parked_count ≡ 1
unfolding decide human noted check in_scope check_limits evaluate protected_bar sensitive_bar
    sensitive first outside_scope match_any_fold match_any match_glob glob_match_parts split
    has_stars Panel.decide poll hear conclude new_supervisor
build_file = refl

decide-within_limit_example :
    let o = decide plain same setting docs request before in
    (o.after.total ≡ 5)
    × (by_rule o ≡ true → o.after.auto_approved ≡ 3)
    × (false ≡ false → by_rule o ≡ false → o.after.auto_approved ≡ 2)
    × Permits (pos 3) o.after.auto_approved
decide-within_limit_example =
    decide-within_limit plain same setting docs request before (inr (omega arith))

both_agree :
    (Panel.decide same agree two_models action_file_edit true none).decision
    ≡ decided true ("a: fine" ∷ "b: fine" ∷ [])
unfolding Panel.decide poll hear conclude
both_agree = refl

decide-IsUnanimous_example :
    IsUnanimous
      ("a" ∷ "b" ∷ [])
      (Panel.decide same agree two_models action_file_edit true none).votes
      vote_approve
    × (str_eq action_file_edit action_file_edit ≡ true)
    × (1 < validator_reject_limit)
decide-IsUnanimous_example =
    decide-IsUnanimous same agree two_models action_file_edit true none true
      ("a: fine" ∷ "b: fine" ∷ []) both_agree

decide-counts_example :
    let r = Panel.decide same agree two_models action_file_edit true none in
    ((reasons : List String) → r.decision ≡ decided false reasons → r.after.reject_run ≡ 2)
    × ((reasons : List String)
        → r.decision ≡ decided true reasons
        → (r.after.reject_run ≡ 0) × (r.after.unreviewed ≡ true))
    × ((note : Note) → r.decision ≡ left_open note → r.after.reject_run ≤ 1)
    × (r.after.reject_run ≤ validator_reject_limit)
    × (false ≡ true → r.after.unreviewed ≡ true)
decide-counts_example = decide-counts same agree two_models action_file_edit true none (omega arith)

decide-Marked_example :
    let o = decide plain same setting docs request before in
    (is_shared o.ruling.source ≡ true → o.ruling.approved ≡ true → o.after.task_approved ≡ true)
    × (is_validator o.ruling.source ≡ true
        → o.ruling.approved ≡ true
        → is_unreviewed o.after.panel ≡ true)
    × (false ≡ true → o.after.task_approved ≡ true)
    × (false ≡ true → is_unreviewed o.after.panel ≡ true)
decide-Marked_example = decide-Marked plain same setting docs request before

abbrev on_disk : String → Kind
on_disk path = if str_eq path "docs" then directory else missing

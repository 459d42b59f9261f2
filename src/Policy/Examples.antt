-- ===== src/Policy/Examples.antt =====
-- Runs of the policy engine, with texts compared as they stand and whole numbers for scores.
use st_air_case.Prelude.{
  ℕ, pos, true, false, ◌||◌, none, some, [], ◌∷◌, ◌≡◌, refl, ◌↔◌, ◌⊎◌, arith, All, Memᴰ, str_eq,
  ◌==◌, leb,
}
use st_air_case.Domain.{YieldRequest}
use st_air_case.Glob.{match_any_fold, match_glob, glob_match_parts, split, has_stars}
use st_air_case.GoLibrary.{GoLibrary}
use st_air_case.Policy.{
  PolicyDecision, auto_approved, Engine, Rule, File, Facts, Limits, evaluate, matches_facts,
  rule_matches, decide_by, has_typed_condition,
}
use st_air_case.Policy.Deciding.{Decides, evaluate-Decides}
use st_air_case.Policy.Evaluation.{evaluate-append_rules}
use st_air_case.Policy.Conditions.{Within, FileFits, matches_facts_iff, matches_facts_smaller}
use st_air_case.Policy.Quotas.{check_limits, within, HasRoom, check_limits_iff}
use st_air_case.Policy.Loading.{
  check_engine, check_engine_iff, IsWellFormed, is_blanket_deny, blanket_deny,
}

abbrev plain : GoLibrary
plain = record {
  Score = ℕ;
  is_zero = λ n. n == 0;
  at_least = λ a b. leb b a;
  to_lower = λ s. s;
  equal_fold = str_eq;
  path_match = λ p n. some (str_eq p "*" || str_eq p n);
}

abbrev any_rule : Rule ℕ
any_rule = record {
  action_types = [];
  min_confidence = 0;
  allowed_extensions = [];
  agent_names = [];
  paths = [];
  max_lines = pos 0;
  max_files = pos 0;
  new_files_only = false;
  no_deletions = false;
  effect = "";
}

abbrev docs_rule : Rule ℕ
docs_rule = record any_rule { paths = "docs/**" ∷ []; max_lines = pos 20; no_deletions = true }

abbrev limits : Limits
limits = record {
  max_auto_approved = pos 3;
  max_total_yields = pos 0;
  run = record {
    checkpoint_every = pos 0;
    max_files_changed = pos 0;
    max_scope_violations = pos 0;
    max_run_secs = pos 0;
  };
}

abbrev engine : Engine ℕ
engine = record {
  engine_version = pos 1;
  rules = docs_rule ∷ [];
  limits = limits;
  allow_blanket_deny = false;
}

abbrev edit : YieldRequest ℕ
edit = record {
  agent_name = "writer";
  action_type = "file_edit";
  proposed_edits = [];
  reasoning_trace = "";
  confidence_score = 90;
  batch_id = "";
  review_after = false;
  sandboxed = false;
  drift = "";
  guard_note = "";
  review_note = "";
  adopts = pos 0;
}

abbrev docs_file : File
docs_file = record { path = "docs/cli.md"; is_new = true; deleted = false; lines = 5 }

abbrev docs_change : Facts
docs_change = record { files = docs_file ∷ []; total_lines = 5 }

docs_approved :
    evaluate plain engine edit docs_change
    ≡ record { matched = true; approved = true; reason = auto_approved 0 }
unfolding evaluate rule_matches matches_facts match_any_fold match_glob glob_match_parts split
    has_stars decide_by
docs_approved = refl

shell_to_person :
    (evaluate plain engine (record edit { action_type = "shell_exec" }) docs_change).matched ≡ false
unfolding evaluate
shell_to_person = refl

deny_all_refused :
    check_engine plain (record engine { rules = record any_rule { effect = "reject" } ∷ [] })
    ≡ some (blanket_deny 0)
unfolding check_engine is_blanket_deny has_typed_condition
deny_all_refused = refl

abbrev approved_by_0 : PolicyDecision
approved_by_0 = record { matched = true; approved = true; reason = auto_approved 0 }

evaluate-Decides_example :
    (evaluate plain engine edit docs_change ≡ approved_by_0)
    ↔ Decides plain engine edit docs_change approved_by_0
evaluate-Decides_example = evaluate-Decides plain engine edit docs_change approved_by_0

decided_before : (evaluate plain engine edit docs_change).matched ≡ true
unfolding evaluate rule_matches matches_facts match_any_fold match_glob glob_match_parts split
    has_stars decide_by
decided_before = refl

evaluate-append_rules_example :
    evaluate plain (record engine { rules = docs_rule ∷ any_rule ∷ [] }) edit docs_change
    ≡ evaluate plain engine edit docs_change
evaluate-append_rules_example =
    evaluate-append_rules plain engine (any_rule ∷ []) edit docs_change decided_before

matches_facts_iff_example :
    (matches_facts plain docs_rule docs_change ≡ true)
    ↔ (Within (pos 20) 5 × Within (pos 0) 1 × All (FileFits plain docs_rule) (docs_file ∷ []))
matches_facts_iff_example = matches_facts_iff plain docs_rule docs_change

docs_matches : matches_facts plain docs_rule docs_change ≡ true
unfolding matches_facts match_any_fold match_glob glob_match_parts split has_stars
docs_matches = refl

matches_facts_smaller_example :
    matches_facts plain docs_rule (record { files = docs_file ∷ []; total_lines = 4 }) ≡ true
matches_facts_smaller_example =
    matches_facts_smaller plain docs_rule (record { files = docs_file ∷ []; total_lines = 4 })
      docs_change (omega arith) (omega arith) (Memᴰ.head refl, tt) docs_matches

check_limits_iff_example :
    (check_limits limits 3 7 ≡ within) ↔ (HasRoom (pos 3) 3 × HasRoom (pos 0) 7)
check_limits_iff_example = check_limits_iff limits 3 7

check_engine_iff_example : (check_engine plain engine ≡ none) ↔ (
    All (IsWellFormed plain) engine.rules
    × ((engine.allow_blanket_deny ≡ true)
        ⊎ All (λ r. is_blanket_deny plain r ≡ false) engine.rules))
check_engine_iff_example = check_engine_iff plain engine

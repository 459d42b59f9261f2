-- ===== src/Plan/Examples.antt =====
-- Runs of the plan checks.
use st_air_case.Prelude.{pos, negsuc, true, none, some, [], ◌∷◌, ◌≡◌, refl, ◌↔◌, str_eq}
use st_air_case.Plan.{Plan, validate, contains, harnesses, names_commit, unknown_supervisor}
use st_air_case.Plan.RunLimits.{Limits, stricter, Permits, stricter-Permits}
use st_air_case.Plan.Provider.{has_slash, provider_for, secret_for}
use st_air_case.Plan.Validation.{IsRunnable, validate-IsRunnable, validate-harness_iff}

abbrev no_limits : Limits
no_limits = record {
  checkpoint_every = pos 0;
  max_files_changed = pos 0;
  max_scope_violations = negsuc 4;
  max_run_secs = pos 0;
}

abbrev some_limits : Limits
some_limits = record no_limits { max_files_changed = pos 9; max_scope_violations = pos 2 }

abbrev small_plan : Plan
small_plan = record {
  plan_version = 2;
  case_id = pos 1;
  topology_version = pos 1;
  supervisor = "lead";
  agents = record { name = "lead"; role = ""; model = "gpt-5"; tools = "run_shell" ∷ [] } ∷ [];
  edges = record { source = "lead"; target = "END"; condition = "" } ∷ [];
  prd = "";
  repo_context = "";
  stories = [];
  lessons = [];
  harness = "";
  review = none;
  blueprint_hash = "";
  limits = no_limits;
}

abbrev review_plan : Plan
review_plan = record small_plan {
  supervisor = "";
  agents = [];
  edges = [];
  harness = "review";
  review = some (record { ref = "pr/1"; commit = "188a7dda520e"; by = ""; message = "" });
}

small_plan_runs : validate small_plan ≡ []
unfolding validate secret_for provider_for has_slash
small_plan_runs = refl

no_supervisor :
    validate (record small_plan { supervisor = "boss" }) ≡ unknown_supervisor "boss" ∷ []
unfolding validate secret_for provider_for has_slash
no_supervisor = refl

negative_is_none : stricter (negsuc 0) (pos 7) ≡ pos 7
unfolding stricter
negative_is_none = refl

stricter-Permits_example :
    Permits (stricter (negsuc 0) (pos 7)) 5 ↔ (Permits (negsuc 0) 5 × Permits (pos 7) 5)
stricter-Permits_example = stricter-Permits (negsuc 0) (pos 7) 5

validate-IsRunnable_example : (validate small_plan ≡ []) ↔ IsRunnable small_plan
validate-IsRunnable_example = validate-IsRunnable small_plan refl

validate-harness_iff_example : (validate review_plan ≡ []) ↔ (
    (contains harnesses review_plan.harness ≡ true)
    × (review_plan.agents ≡ [])
    × (review_plan.edges ≡ [])
    × (str_eq review_plan.supervisor "" ≡ true)
    × (str_eq review_plan.harness "review" ≡ names_commit review_plan.review))
validate-harness_iff_example = validate-harness_iff review_plan refl

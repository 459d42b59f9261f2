-- ===== src/Drift/Examples.antt =====
-- A run supervised by hand.
use st_air_case.Prelude.{
  suc, ◌+◌, ◌<◌, pos, pos_part, String, Bool, true, false, not, ◌||◌, Option, some, [], ◌∷◌, ◌≡◌,
  refl, ◌↔◌, All, str_eq,
}
use st_air_case.Glob.{match_any, match_glob, glob_match_parts, split, has_stars}
use st_air_case.Plan.RunLimits.{Limits}
use st_air_case.Drift.{
  Supervisor, new_supervisor, check, decided, outside, in_scope, files_after, is_nil,
}
use st_air_case.Drift.Assessment.{FilesWithin, NoCheckpoint, check-halt_iff, check-reasons_iff}
use st_air_case.Drift.Runs.{Run, Step, IsConsistent, Run-IsConsistent}

abbrev literal : String → String → Option Bool
literal p n = some (str_eq p "*" || str_eq p n)

abbrev few : Limits
few = record {
  checkpoint_every = pos 5;
  max_files_changed = pos 3;
  max_scope_violations = pos 1;
  max_run_secs = pos 0;
}

abbrev fresh : Supervisor
fresh = new_supervisor ("src/**" ∷ []) few

goes_on : (check literal fresh ("src/a.go" ∷ [])).1.halt ≡ false
unfolding check new_supervisor in_scope match_any match_glob glob_match_parts split has_stars
goes_on = refl

abbrev one_step : Supervisor
one_step = decided literal (check literal fresh ("src/a.go" ∷ [])).0 ("src/a.go" ∷ []) true true

recorded : one_step.in_scope_files ≡ "src/a.go" ∷ []
unfolding check decided new_supervisor in_scope match_any match_glob glob_match_parts split
    has_stars
recorded = refl

check-halt_iff_example : ((check literal fresh ("src/a.go" ∷ [])).1.halt ≡ true) ↔ (
    (is_nil (outside literal fresh ("src/a.go" ∷ [])) ≡ false)
    × (0 < pos_part fresh.limits.max_scope_violations)
    × (pos_part fresh.limits.max_scope_violations < fresh.violations + 1))
check-halt_iff_example = check-halt_iff literal fresh ("src/a.go" ∷ [])

check-reasons_iff_example : ((check literal fresh ("src/a.go" ∷ [])).1.reasons ≡ []) ↔ (
    All (λ f. not (in_scope literal fresh.scope f) ≡ false) ("src/a.go" ∷ [])
    × FilesWithin literal fresh.limits.max_files_changed
        (files_after literal fresh ("src/a.go" ∷ []))
    × NoCheckpoint literal fresh.limits.checkpoint_every (suc fresh.yields))
check-reasons_iff_example = check-reasons_iff literal fresh ("src/a.go" ∷ []) goes_on

Run-IsConsistent_example : IsConsistent literal one_step
Run-IsConsistent_example =
    Run-IsConsistent literal ("src/**" ∷ []) few one_step
      (Run.next Run.start (Step.by_person ("src/a.go" ∷ []) true goes_on))

-- ===== src/Drift.antt =====
-- src/internal/policy/drift.go: the supervisor that watches a run for drift from its plan.
-- The counters count the proposals of one run, so they are plain numbers. `files`, a Go map from a
-- path to true, is the list of its keys. What `Check` says is kept as data in place of its text:
-- a list of reasons, where the empty list is "".
pub mod Assessment
pub mod Runs
mod Examples
use st_air_case.Prelude.{
  ℕ, suc, ◌+◌, ◌%◌, ℤ, pos, pos_part, ltb_ℤ, ltb, ◌==◌, String, Bool, true, false, not, ◌&&◌, ◌||◌,
  Option, List, [], ◌∷◌, ◌++◌, any, select, length, str_eq, if◌then◌else◌,
}
use st_air_case.Glob.{match_any}
use st_air_case.Plan.RunLimits.{Limits}

pub record DriftReport : Type 0 where
  pub report_scope : List String
  pub in_scope_files : List String
  pub out_of_scope_files : List String
  pub violations : ℕ
  pub overrides : ℕ
  pub auto : ℕ
  pub human : ℕ
  pub halted : String

pub record Supervisor : Type 0 where
  pub scope : List String
  pub limits : Limits
  pub yields : ℕ
  pub files : List String
  pub report : DriftReport
  pub open report use *

pub data Why : Type 0 where
  outside_scope : List String → Why
  too_many_files : ℕ → ℤ → Why
  checkpoint : ℤ → Why

pub record Verdict : Type 0 where
  pub reasons : List Why
  pub halt : Bool

abbrev pub contains : List String → String → Bool
contains xs s = any (λ x. str_eq x s) xs

abbrev pub is_nil {ℓ} : {A : Type ℓ} → List A → Bool
is_nil [] = true
is_nil (x ∷ xs) = false

unfoldable pub new_supervisor : List String → Limits → Supervisor
new_supervisor scope limits = record {
  scope = scope;
  limits = limits;
  yields = 0;
  files = [];
  report = record {
    report_scope = scope;
    in_scope_files = [];
    out_of_scope_files = [];
    violations = 0;
    overrides = 0;
    auto = 0;
    human = 0;
    halted = "";
  };
}

-- `limit > 0 && count > limit`
abbrev pub passed : ℤ → ℕ → Bool
passed l n = ltb_ℤ (pos 0) l && ltb_ℤ l (pos n)

-- `limit > 0 && count % limit == 0`
abbrev pub due : ℤ → ℕ → Bool
due l n = ltb_ℤ (pos 0) l && n % pos_part l == 0

abbrev when : Bool → Why → List Why
when true w = w ∷ []
when false w = []

module _ (path_match : String → String → Option Bool) where
  unfoldable pub in_scope : List String → String → Bool
  in_scope scope f = is_nil scope || match_any path_match scope f

  -- The paths of a proposal that reach outside the scope: `out`.
  abbrev pub outside : Supervisor → List String → List String
  outside s files = select (λ f. not (in_scope s.scope f)) files

  -- The distinct files that were changed and the new ones that the proposal names.
  abbrev pub files_after : Supervisor → List String → ℕ
  files_after s files = length s.files + length (select (λ f. not (contains s.files f)) files)

  -- The part of `Check` behind the scope check, with the reasons found so far.
  later_reasons : Supervisor → List String → List Why → Verdict
  later_reasons s files why = record {
    reasons =
        why
        ++ (when (passed s.limits.max_files_changed (files_after s files))
              (too_many_files (files_after s files) s.limits.max_files_changed)
            ++ when (due s.limits.checkpoint_every s.yields)
                (checkpoint s.limits.checkpoint_every));
    halt = false;
  }

  -- A proposal that reaches outside the scope, counted.
  count_violation : Supervisor → Supervisor
  count_violation s = record s { report = record (s.report) { violations = suc s.violations } }

  unfoldable pub check : Supervisor → List String → Supervisor × Verdict
  unfolding later_reasons count_violation
  check s0 files =
      let s = record s0 { yields = suc s0.yields } in
      let t = count_violation s in
      if is_nil (outside s files)
      then (s, later_reasons s files [])
      else if passed t.limits.max_scope_violations t.violations
      then (t, record { reasons = []; halt = true })
      else (t, later_reasons t files (outside_scope (outside s files) ∷ []))

  -- The last loop of `Decided`: each new file is put on the list of its side.
  add_file : Supervisor → String → Supervisor
  add_file s f =
      if contains s.files f
      then s
      else if in_scope s.scope f
      then record s {
        files = f ∷ s.files;
        report = record (s.report) { in_scope_files = s.in_scope_files ++ f ∷ [] };
      }
      else record s {
        files = f ∷ s.files;
        report = record (s.report) { out_of_scope_files = s.out_of_scope_files ++ f ∷ [] };
      }

  add_files : Supervisor → List String → Supervisor
  unfolding add_file
  add_files s [] = s
  add_files s (f ∷ fs) = add_files (add_file s f) fs

  count_decision : Supervisor → Bool → Supervisor
  count_decision s by_human =
      if by_human
      then record s { report = record (s.report) { human = suc s.human } }
      else record s { report = record (s.report) { auto = suc s.auto } }

  count_override : Supervisor → List String → Supervisor
  count_override s files =
      if any (λ f. not (in_scope s.scope f)) files
      then record s { report = record (s.report) { overrides = suc s.overrides } }
      else s

  unfoldable pub decided : Supervisor → List String → Bool → Bool → Supervisor
  unfolding count_decision count_override add_files
  decided s files approved by_human =
      let counted = count_decision s by_human in
      if approved then add_files (count_override counted files) files else counted

  unfoldable pub replay : Supervisor → List String → Bool → Bool → Supervisor
  unfolding check decided
  replay s paths approved by_human = decided (check s paths).0 paths approved by_human

unfoldable pub halt_run : Supervisor → String → Supervisor
halt_run s reason = record s { report = record (s.report) { halted = reason } }

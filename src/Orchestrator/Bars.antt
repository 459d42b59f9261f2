-- ===== src/Orchestrator/Bars.antt =====
-- src/internal/orchestrator/bars.go, with the sensitive paths of validator.go: which files only a person
-- may change. Each bar names the file it stopped at in place of its sentence, and `none` is "".
pub mod Spared
use st_air_case.Prelude.{String, Bool, not, Option, none, some, List, [], ◌∷◌, if◌then◌else◌}
use st_air_case.Glob.{match_any_fold, is_nil}

-- Why a person decides a change of files.
pub data Bar : Type 0 where
  holds_check sensitive_path project_sensitive outside_run_scope : String → Bar

-- The fields of a run's terms that the bars read.
pub record Terms : Type 0 where
  pub protected_paths : List String
  pub sensitive_paths : List String
  pub scope : List String

abbrev pub builtin_sensitive : List String
builtin_sensitive =
    ".github/**" ∷ ".gitlab/**" ∷ ".circleci/**" ∷ ".husky/**" ∷ "**/.gitlab-ci.yml"
    ∷ "**/.travis.yml" ∷ "**/azure-pipelines.yml" ∷ "**/Jenkinsfile" ∷ "**/Makefile"
    ∷ "**/GNUmakefile" ∷ "**/justfile" ∷ "**/Dockerfile" ∷ "**/go.mod" ∷ "**/go.sum"
    ∷ "**/package.json" ∷ "**/*.lock" ∷ "**/.npmrc" ∷ "**/.gitattributes" ∷ "**/.gitmodules"
    ∷ "**/.pre-commit-config.yaml" ∷ "**/.env*" ∷ "**/*.sh" ∷ "**/CODEOWNERS" ∷ ".gemini/**" ∷ []

-- The first element that passes, which a loop with an early return finds.
unfoldable pub first {ℓ} : {A : Type ℓ} → (A → Bool) → List A → Option A
first p [] = none
first p (x ∷ xs) = if p x then some x else first p xs

abbrev pub stopped_at : (String → Bar) → Option String → Option Bar
stopped_at why none = none
stopped_at why (some f) = some (why f)

-- A bar, and the next one where it does not reach.
abbrev pub or_else : Option Bar → Option Bar → Option Bar
or_else none next = next
or_else (some why) next = some why

module _ (path_match : String → String → Option Bool) (to_lower : String → String) where
  abbrev pub matches_fold : List String → String → Bool
  matches_fold patterns name = match_any_fold path_match to_lower patterns name

  unfoldable pub sensitive : List String → Option String
  sensitive files = first (matches_fold builtin_sensitive) files

  unfoldable pub protected_bar : List String → List String → Option Bar
  protected_bar protected files = stopped_at holds_check (first (matches_fold protected) files)

  unfoldable pub sensitive_bar : List String → List String → Option Bar
  sensitive_bar extra files =
      or_else (stopped_at sensitive_path (sensitive files))
        (stopped_at project_sensitive (first (matches_fold extra) files))

  unfoldable pub outside_scope : List String → List String → Option Bar
  outside_scope scope files =
      if is_nil scope
      then none
      else stopped_at outside_run_scope (first (λ f. not (matches_fold scope f)) files)

  unfoldable pub person_bar : Terms → List String → Option Bar
  person_bar t files =
      or_else (protected_bar t.protected_paths files) (sensitive_bar t.sensitive_paths files)

-- ===== src/Orchestrator/Guard.antt =====
-- src/internal/orchestrator/guard.go: what a change adds that a person has to see. `find_hidden` and `find_secrets`
-- stand for `FindAllString` of the two regular expressions, and the reasons are data.
pub mod Reasons
use Prim.Native.Char.{code}
use st_air_case.Prelude.{
  ℕ, String, Bool, true, false, not, ◌&&◌, ◌||◌, Option, none, some, List, [], ◌∷◌, ◌++◌, any, ltb,
  ◌==◌, str_eq, starts_with, if◌then◌else◌,
}
use st_air_case.GoLibrary.Bytes.{Bytes, count_bytes, utf8_valid}
use st_air_case.Orchestrator.Files.{
  ApprovedFile, deleted, present, Mode, plain, executable, FileMap, entries,
}

pub data GuardReason : Type 0 where
  changes_dependencies makes_executable not_text hidden_characters looks_secret :
      String → GuardReason

abbrev pub dependency_files : List String
dependency_files =
    "go.mod" ∷ "go.sum" ∷ "package.json" ∷ "package-lock.json" ∷ "yarn.lock" ∷ "pnpm-lock.yaml"
    ∷ "requirements.txt" ∷ "pyproject.toml" ∷ "poetry.lock" ∷ "Pipfile" ∷ "Pipfile.lock" ∷ "uv.lock"
    ∷ "Cargo.toml" ∷ "Cargo.lock" ∷ "Gemfile" ∷ "Gemfile.lock" ∷ "composer.json" ∷ "composer.lock"
    ∷ "pom.xml" ∷ "build.gradle" ∷ "build.gradle.kts" ∷ "Package.swift" ∷ []

base_from : String → String → String
base_from found String.[] = found
base_from found (String.◌∷◌ c s) = base_from (if code c == b'/' then s else found) s

-- `path.Base` of a path that does not end in a slash.
unfoldable pub base : String → String
unfolding base_from
base path = base_from path path

unfoldable pub ends_with : String → String → Bool
ends_with s suffix = str_eq s suffix || tails s
  where
    tails : String → Bool
    tails String.[] = false
    tails (String.◌∷◌ c t) = str_eq t suffix || tails t

unfoldable pub is_dependency : String → Bool
unfolding base ends_with
is_dependency path =
    any (λ d. str_eq d (base path)) dependency_files
    || (starts_with (base path) "requirements" && ends_with (base path) ".txt")

-- The content and the mode of a file before the change, where there is one.
abbrev pub content_of : Option ApprovedFile → Bytes
content_of none = []
content_of (some deleted) = []
content_of (some (present content mode)) = content

abbrev pub is_executable : Option ApprovedFile → Bool
is_executable none = false
is_executable (some deleted) = false
is_executable (some (present content plain)) = false
is_executable (some (present content executable)) = true

-- `addsMatch`, given the matches in the new text.
unfoldable pub adds_match : (Bytes → List Bytes) → Bytes → Bytes → Bool
adds_match find old updated =
    any (λ m. ltb (count_bytes old m) (count_bytes updated m)) (find updated)

abbrev when : Bool → GuardReason → List GuardReason
when true r = r ∷ []
when false r = []

module _ (find_hidden find_secrets : Bytes → List Bytes) where
  -- The reasons on one path, in the order of the tests.
  unfoldable pub reasons_of : String → Option ApprovedFile → ApprovedFile → List GuardReason
  unfolding is_dependency adds_match
  reasons_of p before deleted = when (is_dependency p) (changes_dependencies p)
  reasons_of p before (present content mode) =
      when (is_dependency p) (changes_dependencies p)
      ++ (when (is_executable (some (present content mode)) && not (is_executable before))
            (makes_executable p)
          ++ (when (not (utf8_valid content)) (not_text p)
              ++ (when (adds_match find_hidden (content_of before) content) (hidden_characters p)
                  ++ when (adds_match find_secrets (content_of before) content) (looks_secret p))))

  unfoldable pub reasons_on : (String → Option ApprovedFile) → FileMap → List GuardReason
  unfolding reasons_of
  reasons_on before [] = []
  reasons_on before ((p, f) ∷ rest) = reasons_of p (before p) f ++ reasons_on before rest

  -- `guard`: the reasons on every changed path; none is "".
  unfoldable pub guard : (String → Option ApprovedFile) → FileMap → List GuardReason
  unfolding reasons_on entries
  guard before next = reasons_on before (entries next)

-- ===== src/Orchestrator/Changes.antt =====
-- src/internal/orchestrator/decide.go, `changedLines` and `facts`: how much a change changes, from the states
-- before and after it.
use st_air_case.Prelude.{
  ℕ, ◌+◌, String, Bool, true, false, Option, none, some, List, [], ◌∷◌, map, ◌==◌, if◌then◌else◌,
  Result, ok, err,
}
use st_air_case.GoLibrary.Bytes.{Bytes, lf, equal_bytes}
use st_air_case.Policy.{Facts, File}
use st_air_case.Orchestrator.Files.{
  ApprovedFile, deleted, present, FileMap, lookup, FileError, Approvals, from_base, current,
  sorted_keys,
}

-- A byte before the first of the lines cut so far.
abbrev add_byte : ℕ → List Bytes → List Bytes
add_byte c [] = (c ∷ []) ∷ []
add_byte c (l ∷ ls) = (c ∷ l) ∷ ls

-- `strings.SplitAfter(s, "\n")`
unfoldable pub split_after : Bytes → List Bytes
split_after [] = [] ∷ []
split_after (c ∷ s) =
    let rest = split_after s in if c == lf then (c ∷ []) ∷ rest else add_byte c rest

-- Lines, counted: a Go map from a line to its number is the list of the lines.
abbrev pub is_line : Bytes → Bool
is_line [] = false
is_line (c ∷ s) = true

-- The list without one of this line, where it has one.
unfoldable pub take_line : Bytes → List Bytes → Option (List Bytes)
take_line l [] = none
take_line l (k ∷ ks) =
    if equal_bytes k l
    then some ks
    else elim (take_line l ks) [ none ↦ none | some rest ↦ some (k ∷ rest) ]

unfoldable pub count_lines : List Bytes → ℕ
count_lines [] = 0
count_lines (l ∷ ls) = (if is_line l then 1 else 0) + count_lines ls

-- The lines of the new text against what is left of the old: those added, and then those removed.
unfoldable pub match_lines : List Bytes → List Bytes → ℕ
unfolding take_line count_lines
match_lines old [] = count_lines old
match_lines old (l ∷ ls) = elim (take_line l old) [
  | some rest ↦ match_lines rest ls
  | none ↦ (if is_line l then 1 else 0) + match_lines old ls
]

abbrev pub lines_of : Option ApprovedFile → List Bytes
lines_of none = []
lines_of (some deleted) = []
lines_of (some (present content mode)) = split_after content

-- `changedLines` of one path.
unfoldable pub changed_lines : Option ApprovedFile → Option ApprovedFile → ℕ
unfolding match_lines split_after
changed_lines before after = match_lines (lines_of before) (lines_of after)

-- The value of a call whose error is ignored.
abbrev pub value_of : Result FileError (Option ApprovedFile) → Option ApprovedFile
value_of (ok f) = f
value_of (err e) = none

abbrev pub is_none : Option ApprovedFile → Bool
is_none none = true
is_none (some f) = false

abbrev pub is_deleted : Option ApprovedFile → Bool
is_deleted (some deleted) = true
is_deleted _ = false

unfoldable pub file_facts : Approvals → FileMap → String → File
unfolding changed_lines current from_base
file_facts a next p = record {
  path = p;
  is_new = is_none (value_of (from_base (a.base_file p) p));
  deleted = is_deleted (lookup next p);
  lines = changed_lines (value_of (current a p)) (lookup next p);
}

unfoldable pub sum_lines : List File → ℕ
sum_lines [] = 0
sum_lines (f ∷ fs) = f.lines + sum_lines fs

unfoldable pub facts : Approvals → FileMap → Facts
unfolding file_facts sum_lines sorted_keys lookup
facts a next =
    let files = map (file_facts a next) (sorted_keys next) in
    record { files = files; total_lines = sum_lines files }

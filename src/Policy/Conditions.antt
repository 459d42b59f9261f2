-- ===== src/Policy/Conditions.antt =====
-- engine.go, matchesFacts: the conditions of a rule on the files and the size of a change.
use st_air_case.Prelude.{
  ℕ, ◌+◌, ◌≤◌, ℤ, pos, pos_part, neg_part, ltb_ℤ, eqb_ℤ, Bool, true, false, not, ◌&&◌, ◌||◌, List,
  [], ◌∷◌, ◌≡◌, ◌↔◌, ◌⊎◌, inl, inr, arith, length, all, All, all_iff, All-mem, All-map, Memᴰ,
  if◌then◌else◌,
}
use st_air_case.GoLibrary.{GoLibrary}
use st_air_case.Glob.{match_any_fold}
use st_air_case.Policy.{Rule, File, Facts, matches_facts, file_passes, is_nil}

-- A size that a rule's limit allows, where 0 is no limit.
abbrev pub Within : ℤ → ℕ → Type 0
Within l n = (l ≡ pos 0) ⊎ (n + neg_part l ≤ pos_part l)

Within-iff : (l : ℤ) (n : ℕ) → ((not (eqb_ℤ l (pos 0)) && ltb_ℤ l (pos n)) ≡ false) ↔ Within l n
Within-iff l n = ground arith

two_guards :
    (a b c : Bool)
    → ((if a then false else if b then false else c) ≡ true)
      ↔ ((a ≡ false) × (b ≡ false) × (c ≡ true))
two_guards a b c = (λ h. ground arith, λ h. ground arith)

module _ (go : GoLibrary) where
  open go use {Score, to_lower, path_match}

  -- The paths of the rule, its wish for new files and its ban on deletions hold of one file.
  pub record FileFits (r : Rule Score) (f : File) : Type 0 where
    pub in_paths : (is_nil r.paths || match_any_fold path_match to_lower r.paths f.path) ≡ true
    pub new_enough : (not r.new_files_only || f.is_new) ≡ true
    pub kept : (not r.no_deletions || not f.deleted) ≡ true

  file_passes_iff : (r : Rule Score) (f : File) → (file_passes go r f ≡ true) ↔ FileFits r f
  unfolding file_passes
  file_passes_iff r f = (λ h. ground arith, λ h. ground arith)

  all_fit :
      (r : Rule Score) (fs : List File) → (all (file_passes go r) fs ≡ true) ↔ All (FileFits r) fs
  all_fit r fs =
      let (f, g) = all_iff (file_passes go r) fs in
      (
        λ h. All-map _ (FileFits r) fs (λ x. (file_passes_iff r x).0) (f h),
        λ h. g (All-map (FileFits r) _ fs (λ x. (file_passes_iff r x).1) h),
      )

  -- The conditions on a change hold exactly when its lines and its number of files are within the
  -- rule's limits and every changed file lies in the rule's paths, is new where the rule wants new
  -- files, and is not deleted where the rule bans deletions.
  pub matches_facts_iff :
      (r : Rule Score) (f : Facts)
      → (matches_facts go r f ≡ true) ↔ (
          Within r.max_lines f.total_lines
          × Within r.max_files (length f.files)
          × All (FileFits r) f.files)
  unfolding matches_facts
  matches_facts_iff r f =
      let (p, q) =
        two_guards (not (eqb_ℤ r.max_lines (pos 0)) && ltb_ℤ r.max_lines (pos f.total_lines))
          (not (eqb_ℤ r.max_files (pos 0)) && ltb_ℤ r.max_files (pos (length f.files)))
          (all (file_passes go r) f.files) in
      (
        λ h.
            let (a, b, c) = p h in
            (
              (Within-iff r.max_lines f.total_lines).0 a,
              (Within-iff r.max_files (length f.files)).0 b,
              (all_fit r f.files).0 c,
            ),
        λ (a, b, c). q (
          (Within-iff r.max_lines f.total_lines).1 a,
          (Within-iff r.max_files (length f.files)).1 b,
          (all_fit r f.files).1 c,
        ),
      )

  Within-le : (l : ℤ) (m n : ℕ) → m ≤ n → Within l n → Within l m
  Within-le l m n le (inl none') = inl none'
  Within-le l m n le (inr fits) = inr (omega arith)

  All-of_subset :
      (P : File → Type 0) (fs gs : List File) → All (λ x. Memᴰ x gs) fs → All P gs → All P fs
  All-of_subset P [] gs sub h = tt
  All-of_subset P (f ∷ fs) gs sub h = (All-mem P f gs h sub.0, All-of_subset P fs gs sub.1 h)

  -- A change that touches no more lines, no more files and only files of another change meets every
  -- condition on files and size that the other meets: making a change smaller never makes a rule
  -- stop matching.
  pub matches_facts_smaller :
      (r : Rule Score) (small big : Facts)
      → small.total_lines ≤ big.total_lines
      → length small.files ≤ length big.files
      → All (λ f. Memᴰ f big.files) small.files
      → matches_facts go r big ≡ true
      → matches_facts go r small ≡ true
  matches_facts_smaller r small big lines files sub h =
      let (a, b, c) = (matches_facts_iff r big).0 h in
      (matches_facts_iff r small).1 (
        Within-le r.max_lines small.total_lines big.total_lines lines a,
        Within-le r.max_files (length small.files) (length big.files) files b,
        All-of_subset (FileFits r) small.files big.files sub c,
      )

-- ===== src/Drift/Assessment.antt =====
-- drift.go, Check: which proposals a person must see, and which stop the run.
use st_air_case.Prelude.{
  ℕ, suc, ◌+◌, ◌%◌, ◌<◌, ◌≤◌, ℤ, pos_part, String, Bool, true, false, not, Option, List, [], ◌∷◌,
  select, ◌≡◌, refl, ◌≢◌, ◌↔◌, ◌⊎◌, inl, inr, arith, All, Bool-cases,
}
use st_air_case.Drift.{
  Supervisor, Why, check, outside, in_scope, files_after, later_reasons, passed, due, is_nil,
}

module _ {ℓ} {A : Type ℓ} where
  pub select_none :
      (p : A → Bool) (xs : List A) → (is_nil (select p xs) ≡ true) ↔ All (λ x. p x ≡ false) xs
  select_none p [] = (λ h. tt, λ h. refl)
  select_none p (x ∷ xs) =
      let (f, g) = select_none p xs in
      (
        λ h. elim (Bool-cases (p x)) [
          | inl in' ↦ absurd (cc (rw in' at h))
          | inr out ↦ (out, f (rw out at h))
        ],
        λ h. rw (h.0) (g h.1),
      )

module _ (path_match : String → String → Option Bool) where
  -- The check stops the run exactly when the proposal reaches outside the scope and, with this one,
  -- more proposals have than the limit on scope violations allows; without a positive limit it
  -- never does.
  pub check-halt_iff :
      (s : Supervisor) (files : List String)
      → ((check path_match s files).1.halt ≡ true) ↔ (
          (is_nil (outside path_match s files) ≡ false)
          × (0 < pos_part s.limits.max_scope_violations)
          × (pos_part s.limits.max_scope_violations < s.violations + 1))
  unfolding check
  check-halt_iff s files = (λ h. ground arith, λ h. ground arith)

  reasons_iff :
      (s : Supervisor) (files : List String)
      → ((later_reasons path_match s files []).reasons ≡ []) ↔ (
          (passed s.limits.max_files_changed (files_after path_match s files) ≡ false)
          × (due s.limits.checkpoint_every s.yields ≡ false))
  unfolding later_reasons
  reasons_iff s files = (λ h. ground arith, λ h. ground arith)

  reasons_nonempty :
      (s : Supervisor) (files : List String) (w : Why)
      → (later_reasons path_match s files (w ∷ [])).reasons ≢ []
  unfolding later_reasons
  reasons_nonempty s files w h = cc

  outside-nil :
      (s : Supervisor) (files : List String)
      → (is_nil (outside path_match s files) ≡ true)
        ↔ All (λ f. not (in_scope path_match s.scope f) ≡ false) files
  outside-nil s files = select_none (λ f. not (in_scope path_match s.scope f)) files

  -- The number of distinct files stays within a limit, where a limit that is not positive is none.
  abbrev pub FilesWithin : ℤ → ℕ → Type 0
  FilesWithin l n = (pos_part l ≡ 0) ⊎ (n ≤ pos_part l)

  -- The proposal is no checkpoint: there are none, or its number is no multiple of the interval.
  abbrev pub NoCheckpoint : ℤ → ℕ → Type 0
  NoCheckpoint l n = (pos_part l ≡ 0) ⊎ (n % pos_part l ≢ 0)

  passed_iff : (l : ℤ) (n : ℕ) → (passed l n ≡ false) ↔ FilesWithin l n
  passed_iff l n = (λ h. ground arith, λ h. ground arith)

  due_iff : (l : ℤ) (n : ℕ) → (due l n ≡ false) ↔ NoCheckpoint l n
  due_iff l n = (λ h. ground arith, λ h. ground arith)

  check-inside :
      (s : Supervisor) (files : List String)
      → is_nil (outside path_match s files) ≡ true
      → (check path_match s files).1
        ≡ later_reasons path_match (record s { yields = suc s.yields }) files []
  unfolding check
  check-inside s files h = rw h

  check-outside :
      (s : Supervisor) (files : List String)
      → is_nil (outside path_match s files) ≡ false
      → (check path_match s files).1.halt ≡ false
      → (check path_match s files).1.reasons ≢ []
  unfolding check
  check-outside s files h goes_on none' = ground arith

  -- A proposal that does not stop the run may be decided without a person exactly when every file of
  -- it is in the scope, the run's distinct files stay within their limit, and it is no checkpoint.
  pub check-reasons_iff :
      (s : Supervisor) (files : List String)
      → (check path_match s files).1.halt ≡ false
      → ((check path_match s files).1.reasons ≡ []) ↔ (
          All (λ f. not (in_scope path_match s.scope f) ≡ false) files
          × FilesWithin s.limits.max_files_changed (files_after path_match s files)
          × NoCheckpoint s.limits.checkpoint_every (suc s.yields))
  check-reasons_iff s files goes_on = elim (Bool-cases (is_nil (outside path_match s files))) [
    | inl inside ↦
        let (f, g) = reasons_iff (record s { yields = suc s.yields }) files in
        rw (check-inside s files inside) (
          (
            λ h.
                let (a, b) = f h in
                ((outside-nil s files).0 inside, (passed_iff _ _).0 a, (due_iff _ _).0 b),
            λ (a, b, c). g ((passed_iff _ _).1 b, (due_iff _ _).1 c),
          ))
    | inr out ↦ (
      λ h. absurd (check-outside s files out goes_on h),
      λ (a, b, c). absurd (cc ((outside-nil s files).1 a)),
    )
  ]

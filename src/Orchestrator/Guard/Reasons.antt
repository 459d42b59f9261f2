-- ===== src/Orchestrator/Guard/Reasons.antt =====
-- guard.go, `guard`: what is true of a change that sets off no guard.
use st_air_case.Prelude.{
  String, ◌≡◌, refl, ◌↔◌, true, false, Option, some, List, [], ◌∷◌, ◌++◌, arith, All,
}
use st_air_case.GoLibrary.Bytes.{Bytes, utf8_valid}
use st_air_case.Orchestrator.Files.{ApprovedFile, deleted, present, FileMap, entries}
use st_air_case.Orchestrator.Guard.{
  is_dependency, content_of, is_executable, adds_match, reasons_of, reasons_on, guard,
}

append-nil_iff {ℓ} : {A : Type ℓ} (xs ys : List A) → (xs ++ ys ≡ []) ↔ ((xs ≡ []) × (ys ≡ []))
append-nil_iff [] ys = (λ h. (refl, h), λ h. h.1)
append-nil_iff (x ∷ xs) ys = (λ h. absurd (cc h), λ h. absurd (let e = h.0 in cc e))

module _ (find_hidden find_secrets : Bytes → List Bytes) where
  -- What the guards ask of the new text of a file.
  abbrev pub TextOk : Option ApprovedFile → ApprovedFile → Type 0
  TextOk before deleted = Unit
  TextOk before (present content mode) =
      (is_executable (some (present content mode)) ≡ true → is_executable before ≡ true)
      × (utf8_valid content ≡ true)
      × (adds_match find_hidden (content_of before) content ≡ false)
      × (adds_match find_secrets (content_of before) content ≡ false)

  -- No dependency file, and a text that adds nothing a person has to see.
  abbrev pub Unguarded : (String → Option ApprovedFile) → String × ApprovedFile → Type 0
  Unguarded before (p, f) = (is_dependency p ≡ false) × TextOk (before p) f

  reasons_of_iff :
      (p : String) (before : Option ApprovedFile) (f : ApprovedFile)
      → (reasons_of find_hidden find_secrets p before f ≡ [])
        ↔ ((is_dependency p ≡ false) × TextOk before f)
  unfolding reasons_of
  reasons_of_iff p before deleted = (λ h. ground arith, λ h. ground arith)
  reasons_of_iff p before (present content mode) = (λ h. ground arith, λ h. ground arith)

  reasons_on_iff :
      (before : String → Option ApprovedFile) (m : FileMap)
      → (reasons_on find_hidden find_secrets before m ≡ []) ↔ All (Unguarded before) m
  unfolding reasons_on
  reasons_on_iff before [] = (λ h. tt, λ h. refl)
  reasons_on_iff before ((p, f) ∷ rest) =
      let (i, j) = reasons_of_iff p (before p) f in
      let (k, l) = reasons_on_iff before rest in
      let (x, y) = append-nil_iff (reasons_of find_hidden find_secrets p (before p) f) _ in
      (λ h. let (u, v) = x h in (i u, k v), λ h. y (j h.0, l h.1))

  -- No guard is set off exactly when each changed path is no file of dependencies and each file that is
  -- left is text, as executable as it was at most, and adds no hidden character and nothing that
  -- looks like a secret.
  pub guard_iff :
      (before : String → Option ApprovedFile) (next : FileMap)
      → (guard find_hidden find_secrets before next ≡ []) ↔ All (Unguarded before) (entries next)
  unfolding guard
  guard_iff before next = reasons_on_iff before (entries next)

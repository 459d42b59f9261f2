-- ===== src/Orchestrator/Files/Confined.antt =====
-- approval.go, `derive`: the paths that a derived state names.
use st_air_case.Prelude.{
  ℕ, String, ◌≡◌, ap, subst, inl, inr, Bool, Option, List, [], ◌∷◌, select-All, All, Bool-cases,
  Result, ok, err, err-ok, ok-injective, Result-cases,
}
use st_air_case.Domain.{ProposedEdit}
use st_air_case.Orchestrator.Paths.{Kind, BadPath}
use st_air_case.Orchestrator.Paths.Clean.{IsConfined, clean_approved_path-IsConfined}
use st_air_case.Orchestrator.Files.{
  ApprovedFile, FileMap, apply_edit, Approvals, current, record_files, are_texts, as_path,
  clean_path, derive_one, derive_from, derive, entries,
}

module _ (equal_fold : String → String → Bool) (lstat : String → Kind)
    (decode_b64 : String → Option (List ℕ)) where
  abbrev pub Confined : String × ApprovedFile → Type 0
  Confined e = IsConfined equal_fold lstat e.0

  as_path-ok : (r : Result BadPath String) (p : String) → as_path r ≡ ok p → r ≡ ok p
  as_path-ok (ok q) p h = ap ok (ok-injective h)
  as_path-ok (err b) p h = err-ok h

  clean_path-IsConfined :
      (e : ProposedEdit) (p : String)
      → clean_path equal_fold lstat decode_b64 e ≡ ok p
      → IsConfined equal_fold lstat p
  clean_path-IsConfined e p h =
      clean_approved_path-IsConfined equal_fold lstat e.file p (as_path-ok _ p h)

  derive_one-Confined :
      (a : Approvals) (next : FileMap) (e : ProposedEdit) (made : String × ApprovedFile)
      → derive_one equal_fold lstat decode_b64 a next e ≡ ok made
      → Confined made
  unfolding derive_one
  derive_one-Confined a next e made h =
      elim (Bool-cases (are_texts equal_fold lstat decode_b64 e)) [
        | inr binary ↦ err-ok (rw binary at h)
        | inl text ↦ elim (Result-cases (clean_path equal_fold lstat decode_b64 e)) [
          | inr (b, bad) ↦ err-ok (rw (text, bad) at h)
          | inl (p, good) ↦
              elim (Result-cases (apply_edit decode_b64 p e (current (record_files a next) p))) [
                | inr (b, bad) ↦ err-ok (rw (text, good, bad) at h)
                | inl (f, applied) ↦
                    subst Confined (ok-injective (rw (text, good, applied) at h))
                      (clean_path-IsConfined e p good)
              ]
        ]
      ]

  derive_from-Confined :
      (a : Approvals) (next : FileMap) (es : List ProposedEdit) (n : FileMap)
      → All Confined next
      → derive_from equal_fold lstat decode_b64 a next es ≡ ok n
      → All Confined n
  unfolding derive_from
  derive_from-Confined a next [] n c h = subst (All Confined) (ok-injective h) c
  derive_from-Confined a next (e ∷ es) n c h =
      elim (Result-cases (derive_one equal_fold lstat decode_b64 a next e)) [
        | inl (made, one) ↦
            derive_from-Confined a (made ∷ next) es n (derive_one-Confined a next e made one, c)
              (rw one at h)
        | inr (b, bad) ↦ err-ok (rw bad at h)
      ]

  pub entries-All : (P : String × ApprovedFile → Type 0) (m : FileMap) → All P m → All P (entries m)
  unfolding entries
  entries-All P [] h = tt
  entries-All P (e ∷ rest) h = (h.0, select-All P _ (entries rest) (entries-All P rest h.1))

  -- Every path of a derived state is one that approvals accept: it stays under the root, out of `.git`, and
  -- goes through no link.
  pub derive-Confined :
      (a : Approvals) (es : List ProposedEdit) (n : FileMap)
      → derive equal_fold lstat decode_b64 a es ≡ ok n
      → All Confined (entries n)
  unfolding derive
  derive-Confined a es n h = entries-All Confined n (derive_from-Confined a [] es n tt h)

-- ===== src/Orchestrator/Files/Stepwise.antt =====
-- approval.go, `derive`: a proposal derived at once against its edits taken one after the other.
use st_air_case.Prelude.{
  ℕ, String, ◌≡◌, refl, ◌>>=◌, inl, inr, Bool, not, Option, some, List, [], ◌∷◌, str_eq,
  if◌then◌else◌, Bool-cases, Result, ok, err, Result-cases,
}
use mathlib.Core.Path.{fun_ext}
use st_air_case.Domain.{ProposedEdit}
use st_air_case.Orchestrator.Paths.{Kind}
use st_air_case.Orchestrator.Files.{
  ApprovedFile, FileMap, lookup, FileError, not_utf8, apply_edit, Approvals, current, record_files,
  are_texts, clean_path, derive_one, derive_from, derive,
}

-- The abstract view of the approvals: what each path holds.
abbrev pub Store : Type 0
Store = String → Result FileError (Option ApprovedFile)

-- A store, changed at one path.
abbrev pub update : Store → String → ApprovedFile → Store
update s p f q = if str_eq p q then ok (some f) else s q

current-record :
    (a : Approvals) (p : String) (f : ApprovedFile) (next : FileMap)
    → current (record_files a ((p, f) ∷ next)) ≡ update (current (record_files a next)) p f
unfolding current lookup record_files
current-record a p f next =
    fun_ext
      λ q. elim (Bool-cases (str_eq p q)) [ inl same ↦ rw same refl | inr other ↦ rw other refl ]

module _ (equal_fold : String → String → Bool) (lstat : String → Kind)
    (decode_b64 : String → Option (List ℕ)) where
  -- One edit, approved on a store.
  abbrev pub approve : Store → ProposedEdit → Result FileError Store
  approve s e =
      if not (are_texts equal_fold lstat decode_b64 e)
      then err (not_utf8 e.file)
      else (clean_path equal_fold lstat decode_b64 e >>= λ p.
          apply_edit decode_b64 p e (s p) >>= λ f. ok (update s p f))

  -- Edits approved one after the other.
  pub approve_all : Store → List ProposedEdit → Result FileError Store
  approve_all s [] = ok s
  approve_all s (e ∷ es) = approve s e >>= λ t. approve_all t es

  derive_from-approve_all :
      (a : Approvals) (next : FileMap) (es : List ProposedEdit)
      → (derive_from equal_fold lstat decode_b64 a next es >>= λ n. ok (current (record_files a n)))
        ≡ approve_all (current (record_files a next)) es
  unfolding derive_from derive_one approve_all
  derive_from-approve_all a next [] = refl
  derive_from-approve_all a next (e ∷ es) =
      elim (Bool-cases (are_texts equal_fold lstat decode_b64 e)) [
        | inr binary ↦ rw binary refl
        | inl text ↦ elim (Result-cases (clean_path equal_fold lstat decode_b64 e)) [
          | inr (b, bad) ↦ rw (text, bad) refl
          | inl (p, good) ↦
              elim (Result-cases (apply_edit decode_b64 p e (current (record_files a next) p))) [
                | inr (b, bad) ↦ rw (text, good, bad) refl
                | inl (f, made) ↦
                    rw (text, good, made, ← current-record a p f next)
                      (derive_from-approve_all a ((p, f) ∷ next) es)
              ]
        ]
      ]

  -- A proposal of several edits is derived as its edits are approved one after the other: it is refused
  -- for the same reason, and adopting what it derives leaves every path as the last of them left it.
  pub derive-approve_all :
      (a : Approvals) (es : List ProposedEdit)
      → (derive equal_fold lstat decode_b64 a es >>= λ n. ok (current (record_files a n)))
        ≡ approve_all (current a) es
  unfolding derive record_files
  derive-approve_all a es = derive_from-approve_all a [] es

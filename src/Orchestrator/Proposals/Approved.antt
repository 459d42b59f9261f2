-- ===== src/Orchestrator/Proposals/Approved.antt =====
-- decide.go and approval.go together: what is true of a change that is decided without a person.
use st_air_case.Prelude.{
  String, ◌≡◌, refl, sym, ap, ◌∙◌, subst, inl, inr, true, false, Option, none, some, List, arith,
  str_eq, All, Bool-cases, Result, ok, err,
}
use st_air_case.Domain.{YieldRequest, ProposedEdit, action_file_edit}
use st_air_case.GoLibrary.{GoLibrary}
use st_air_case.Glob.{is_nil}
use st_air_case.Orchestrator.Paths.Clean.{IsConfined}
use st_air_case.Orchestrator.Bars.{builtin_sensitive, matches_fold}
use st_air_case.Orchestrator.Bars.Spared.{
  Spares, protected_bar-none, sensitive_bar-none, outside_scope-none,
}
use st_air_case.Orchestrator.Files.{
  ApprovedFile, FileMap, FileError, Approvals, current, derive, entries, sorted_keys,
}
use st_air_case.Orchestrator.Files.Sizes.{Oversized}
use st_air_case.Orchestrator.Files.Confined.{derive-Confined}
use st_air_case.Orchestrator.Guard.Reasons.{Unguarded, guard_iff}
use st_air_case.Orchestrator.Changes.{value_of}
use st_air_case.Orchestrator.Deciders.{Setting, Deciders, Found, Derived, derives}
use st_air_case.Orchestrator.Rulings.{decide}
use st_air_case.Orchestrator.Rulings.Keeping.{is_automatic}
use st_air_case.Orchestrator.Rulings.Clearance.{IsClear, decide-IsClear, decide-next}
use st_air_case.Orchestrator.Proposals.{
  Outside, derived_of, within_record, of_result, derivation, is_bad_path,
}

derives-injective : {m n : Derived} → derives m ≡ derives n → m ≡ n
derives-injective h = cc

within_record-derives :
    (n m : Derived) (w : Option Oversized) → within_record n w ≡ derives m → n ≡ m
within_record-derives n m none h = derives-injective h
within_record-derives n m (some why) h = absurd (cc h)

module _ (o : Outside) where
  of_result-derives :
      (a : Approvals) (r : Result FileError FileMap) (n : Derived)
      → of_result o a r ≡ derives n
      → (m : FileMap) × (r ≡ ok m) × (derived_of o a m ≡ n)
  unfolding is_bad_path
  of_result-derives a (err e) n h = absurd (elim (Bool-cases (is_bad_path e)) [
    | inl yes' ↦ cc (rw yes' at h)
    | inr no' ↦ cc (rw no' at h)
  ])
  of_result-derives a (ok m) n h = (m, refl, within_record-derives (derived_of o a m) n _ h)

  module _ (go : GoLibrary) where
    open go use {Score, to_lower, path_match}

    -- A change that needs no person, with the state it leads to.
    pub record IsSafe (c : Setting Score) (a : Approvals) (edits : List ProposedEdit) : Type 0 where
      pub next : FileMap
      pub derived : derive o.equal_fold o.lstat o.decode_b64 a edits ≡ ok next
      pub confined :
          All (λ (e : String × ApprovedFile). IsConfined o.equal_fold o.lstat e.0) (entries next)
      pub unguarded :
          All (Unguarded o.find_hidden o.find_secrets (λ p. value_of (current a p))) (entries next)
      pub unprotected : All (Spares path_match to_lower c.terms.protected_paths) (sorted_keys next)
      pub not_sensitive : All (Spares path_match to_lower builtin_sensitive) (sorted_keys next)
      pub not_sensitive_here :
          All (Spares path_match to_lower c.terms.sensitive_paths) (sorted_keys next)
      pub in_scope :
          is_nil c.terms.scope ≡ false
          → All (λ f. matches_fold path_match to_lower c.terms.scope f ≡ true) (sorted_keys next)

    clear-IsSafe :
        (sha256_hex : String → String) (c : Setting Score) (found : Found)
        (req : YieldRequest Score) (a : Approvals) (t : Deciders) (next : FileMap)
        → str_eq req.action_type action_file_edit ≡ true
        → derive o.equal_fold o.lstat o.decode_b64 a req.proposed_edits ≡ ok next
        → IsClear go sha256_hex c found req t (some (derived_of o a next))
        → IsSafe c a req.proposed_edits
    unfolding derived_of
    clear-IsSafe sha256_hex c found req a t next edits made k =
        let (builtin, own) =
          sensitive_bar-none path_match to_lower _ (sorted_keys next) (k.not_sensitive edits) in
        record {
          next = next;
          derived = made;
          confined =
              derive-Confined o.equal_fold o.lstat o.decode_b64 a req.proposed_edits next made;
          unguarded =
              (guard_iff o.find_hidden o.find_secrets (λ p. value_of (current a p)) next).0
                k.unguarded;
          unprotected = protected_bar-none path_match to_lower _ (sorted_keys next) k.unprotected;
          not_sensitive = builtin;
          not_sensitive_here = own;
          in_scope = outside_scope-none path_match to_lower _ (sorted_keys next) k.in_run_scope;
        }

    -- Where a file edit is decided without a person (by a rule, the agreed task, evidence or the models), on
    -- what approvals derive from it: every path stays in the repository, out of `.git`, and holds no
    -- check's definition and nothing sensitive; it is in the run's scope, if that has any; no file
    -- of dependencies changes; and each file that is left is text, gains no permission to be executed,
    -- no hidden character and nothing that looks like a secret.
    pub decide-IsSafe :
        (sha256_hex : String → String) (c : Setting Score) (found : Found)
        (req : YieldRequest Score) (a : Approvals) (t : Deciders)
        → found.derivation ≡ derivation o a req.proposed_edits
        → str_eq req.action_type action_file_edit ≡ true
        → c.has_approvals ≡ true
        → is_automatic (decide go sha256_hex c found req t).ruling.source ≡ true
        → IsSafe c a req.proposed_edits
    unfolding derivation
    decide-IsSafe sha256_hex c found req a t from edits has auto =
        let (n, was, next) = decide-next go sha256_hex c found req t (ground arith) auto in
        let (m, made, same) = of_result-derives a _ n (sym from ∙ was) in
        clear-IsSafe sha256_hex c found req a t m edits made (
          subst (IsClear go sha256_hex c found req t) (next ∙ ap some (sym same))
            (decide-IsClear go sha256_hex c found req t auto))

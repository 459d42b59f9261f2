-- ===== src/Orchestrator/Proposals.antt =====
-- src/internal/orchestrator/decide.go, the beginning of `rule`: what a proposal would change, from the state the
-- approvals derive, as it comes before those who decide it.
pub mod Approved
use st_air_case.Prelude.{
  ℕ, String, Bool, Option, none, some, List, [], ◌∷◌, Result, ok, err, true, false, if◌then◌else◌,
}
use st_air_case.Domain.{ProposedEdit}
use st_air_case.GoLibrary.Bytes.{Bytes}
use st_air_case.Orchestrator.Paths.{Kind}
use st_air_case.Orchestrator.Files.{
  FileMap, FileError, path_refused, not_regular, Approvals, current, derive, sorted_keys,
}
use st_air_case.Orchestrator.Files.Sizes.{Oversized, record_too_big}
use st_air_case.Orchestrator.Guard.{guard}
use st_air_case.Orchestrator.Changes.{facts, value_of}
use st_air_case.Orchestrator.Deciders.{
  Derivation, bad_path, not_applicable, too_large, derives, Derived,
}

-- `errors.Is(err, errBadPath)`
unfoldable pub is_bad_path : FileError → Bool
is_bad_path (path_refused b) = true
is_bad_path (not_regular p) = true
is_bad_path _ = false

-- What the code outside of the program answers: the disk, the letter case, base64, JSON and the two
-- regular expressions of the guards.
pub record Outside : Type 0 where
  pub equal_fold : String → String → Bool
  pub lstat : String → Kind
  pub decode_b64 : String → Option Bytes
  pub quoted : String → ℕ
  pub find_hidden : Bytes → List Bytes
  pub find_secrets : Bytes → List Bytes

abbrev pub within_record : Derived → Option Oversized → Derivation
within_record n none = derives n
within_record n (some why) = too_large why

module _ (o : Outside) where
  open o use {equal_fold, lstat, decode_b64, quoted, find_hidden, find_secrets}

  unfoldable pub derived_of : Approvals → FileMap → Derived
  unfolding facts guard sorted_keys current
  derived_of a next = record {
    paths = sorted_keys next;
    facts = facts a next;
    guards = guard find_hidden find_secrets (λ p. value_of (current a p)) next;
  }

  abbrev pub of_result : Approvals → Result FileError FileMap → Derivation
  of_result a (err e) = if is_bad_path e then bad_path e else not_applicable e
  of_result a (ok next) = within_record (derived_of a next) (record_too_big quoted a next)

  unfoldable pub derivation : Approvals → List ProposedEdit → Derivation
  unfolding is_bad_path derived_of derive record_too_big
  derivation a edits = of_result a (derive equal_fold lstat decode_b64 a edits)

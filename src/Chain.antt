-- ===== src/Chain.antt =====
-- src/internal/chain/chain.go: how an entry of the audit chain is hashed and a chain is verified.
-- A Go string is its list of bytes. `sha` stands for SHA-256 printed in hex: everything here holds
-- for any function from bytes to bytes, and a theorem that needs it to be free of collisions says
-- instead that a collision was found.
pub mod Framing
pub mod Verdicts
pub mod Tampering
mod Examples
use Prim.Native.Nat.{◌∣◌}
use Prim.Native.Char.{code}
use st_air_case.Prelude.{
  ℕ, zero, suc, ◌*◌, ◌/◌, ◌%◌, ◌^◌, String, Bool, Option, none, some, List, [], ◌∷◌, ◌++◌, ltb,
  ◌==◌, ◌&&◌, true, false, length, if◌then◌else◌,
}

abbrev pub Bytes : Type 0
Bytes = List ℕ

-- The bytes of an ASCII literal.
abbrev pub codes : String → Bytes
codes String.[] = []
codes (String.◌∷◌ c s) = code c ∷ codes s

abbrev pub bytes_eq : Bytes → Bytes → Bool
bytes_eq [] [] = true
bytes_eq (a ∷ as') (b ∷ bs) = a == b && bytes_eq as' bs
bytes_eq _ _ = false

-- The fields of domain.RunEventLog that the chain reads.
pub record Entry : Type 0 where
  pub id : ℕ
  pub event_type : Bytes
  pub payload : Bytes
  pub event_hash : Bytes
  pub git_commit_hash : Bytes
  pub hash_version : ℕ

-- The errors of `Expected` and `Check`.
pub data ChainError : Type 0 where
  unknown_version : ℕ → ℕ → ChainError
  mismatch : ℕ → ℕ → Bytes → Bytes → ChainError

abbrev pub max_payload : ℕ
max_payload = 1048576

-- `CheckSize`: whether a payload is refused as too large.
unfoldable pub too_large : Bytes → Bool
too_large payload = ltb max_payload (length payload)

-- `binary.BigEndian.PutUint64`: the low eight bytes of a length, the most significant first.
unfoldable pub be_bytes : ℕ → ℕ → Bytes
be_bytes zero n = []
be_bytes (suc k) n = n / 256 ^ k % 256 ∷ be_bytes k n

-- One field as `HashV2` writes it.
unfoldable pub framed : Bytes → Bytes
framed field = be_bytes 8 (length field) ++ field

unfoldable pub frame_all : List Bytes → Bytes
frame_all [] = []
frame_all (f ∷ fs) = framed f ++ frame_all fs

abbrev pub label : Bytes
label = codes "staircase-chain-v2\n"

-- The bytes that version 1 and version 2 hash.
unfoldable pub message_v1 : Bytes → Bytes → Bytes → Bytes
message_v1 payload prev commit = payload ++ (prev ++ commit)

unfoldable pub message_v2 : Bytes → Bytes → Bytes → Bytes → Bytes
message_v2 event payload prev commit = label ++ frame_all (event ∷ payload ∷ prev ∷ commit ∷ [])

-- `Verify`'s loop over the verdicts.
first_error : List (Option ChainError) → Option ChainError
first_error [] = none
first_error (none ∷ rs) = first_error rs
first_error (some e ∷ rs) = some e

module _ (sha : Bytes → Bytes) where
  -- `none` is the error for a version that is not known.
  unfoldable pub expected : Entry → Bytes → Option Bytes
  expected e prev =
      if e.hash_version == 0
      then some (sha (message_v1 e.payload prev e.git_commit_hash))
      else if e.hash_version == 1
      then some (sha (message_v1 e.payload prev e.git_commit_hash))
      else if e.hash_version == 2
      then some (sha (message_v2 e.event_type e.payload prev e.git_commit_hash))
      else none

  -- What `Check` says of entry `e` at position `n`: `none` where it is intact.
  judge : ℕ → Entry → Option Bytes → Option ChainError
  judge n e none = some (unknown_version e.id e.hash_version)
  judge n e (some want) =
      if bytes_eq e.event_hash want then none else some (mismatch n e.id e.event_hash want)

  -- The loop of `Check`, at position `n` and after the stored hash `prev`.
  unfoldable pub check_from : ℕ → Bytes → List Entry → List (Option ChainError)
  unfolding judge
  check_from n prev [] = []
  check_from n prev (e ∷ es) = judge n e (expected e prev) ∷ check_from (suc n) e.event_hash es

  unfoldable pub check : List Entry → List (Option ChainError)
  unfolding check_from
  check entries = check_from 1 [] entries

  -- `none` is a nil error: the chain verifies.
  unfoldable pub verify : List Entry → Option ChainError
  unfolding first_error
  verify entries = first_error (check entries)

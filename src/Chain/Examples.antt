-- ===== src/Chain/Examples.antt =====
-- Chains under a hash function that prints its message behind a mark.
use st_air_case.Prelude.{
  ◌+◌, [], ◌∷◌, ◌++◌, none, some, ◌≡◌, refl, ◌↔◌, ◌⊎◌, ◌≢◌, arith, length, map,
}
use st_air_case.Chain.{
  Bytes, Entry, codes, expected, check, check_from, verify, message_v2, mismatch, frame_all, framed,
  be_bytes,
}
use st_air_case.Chain.Framing.{message_v2-injective}
use st_air_case.Chain.Verdicts.{head_hash, Linked, verify-Linked, check-append, verify-append}
use st_air_case.Chain.Tampering.{Collision, content, IsCurrent, verify-tamper_evident}

-- Not a good hash: it keeps the length alone.
abbrev toy_hash : Bytes → Bytes
toy_hash m = length m ∷ []

abbrev first_entry : Entry
first_entry = record {
  id = 1;
  event_type = codes "run_bound";
  payload = codes "{}";
  event_hash = 62 ∷ [];
  git_commit_hash = [];
  hash_version = 2;
}

abbrev second_entry : Entry
second_entry = record {
  id = 2;
  event_type = codes "run_path";
  payload = codes "{}";
  event_hash = 62 ∷ [];
  git_commit_hash = [];
  hash_version = 2;
}

two_entries : verify toy_hash (first_entry ∷ second_entry ∷ []) ≡ none
unfolding verify check expected message_v2 frame_all framed be_bytes
two_entries = refl

broken_then_intact :
    check toy_hash (record first_entry { event_hash = 63 ∷ [] } ∷ second_entry ∷ [])
    ≡ some (mismatch 1 1 (63 ∷ []) (62 ∷ [])) ∷ none ∷ []
unfolding check expected message_v2 frame_all framed be_bytes
broken_then_intact = refl

nonempty_hash : (m : Bytes) → toy_hash m ≢ []
nonempty_hash m h = cc

verify-Linked_example :
    (verify toy_hash (first_entry ∷ second_entry ∷ []) ≡ none)
    ↔ Linked toy_hash [] (first_entry ∷ second_entry ∷ [])
verify-Linked_example = verify-Linked toy_hash (first_entry ∷ second_entry ∷ [])

check-append_example :
    check toy_hash ((first_entry ∷ []) ++ second_entry ∷ [])
    ≡ check toy_hash (first_entry ∷ [])
      ++ check_from toy_hash (1 + 1) (head_hash [] (first_entry ∷ [])) (second_entry ∷ [])
check-append_example = check-append toy_hash (first_entry ∷ []) (second_entry ∷ [])

verify-append_example : (verify toy_hash ((first_entry ∷ []) ++ second_entry ∷ []) ≡ none) ↔ (
    (verify toy_hash (first_entry ∷ []) ≡ none)
    × (expected toy_hash second_entry (62 ∷ []) ≡ some second_entry.event_hash))
verify-append_example = verify-append toy_hash (first_entry ∷ []) second_entry

message_v2-injective_example :
    (codes "a" ≡ codes "a")
    × (codes "b" ≡ codes "b")
    × (codes "" ≡ codes "")
    × (codes "c" ≡ codes "c")
message_v2-injective_example =
    message_v2-injective (codes "a") (codes "b") (codes "") (codes "c") (codes "a") (codes "b")
      (codes "") (codes "c") (omega arith) (omega arith) refl

first-IsCurrent : IsCurrent first_entry
first-IsCurrent = omega arith

second-IsCurrent : IsCurrent second_entry
second-IsCurrent = omega arith

verify-tamper_evident_example :
    Collision toy_hash
    ⊎ (map content (first_entry ∷ second_entry ∷ [])
        ≡ map content (first_entry ∷ second_entry ∷ []))
verify-tamper_evident_example =
    verify-tamper_evident toy_hash (first_entry ∷ second_entry ∷ [])
      (first_entry ∷ second_entry ∷ []) nonempty_hash (first-IsCurrent, (second-IsCurrent, tt))
      (first-IsCurrent, (second-IsCurrent, tt)) two_entries two_entries refl

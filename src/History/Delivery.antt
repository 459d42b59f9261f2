-- ===== src/History/Delivery.antt =====
-- history.go: what an authorization to deliver without a person rests on.
use st_air_case.Prelude.{
  ℕ, suc, ◌-◌, ◌<◌, ◌==◌, String, true, false, Option, none, some, List, [], ◌∷◌, ◌++◌, length, ◌≡◌,
  ◌≢◌, refl, arith, sym, ◌⊎◌, inl, inr, if◌then◌else◌, eq_iff, Bool-cases,
}
use st_air_case.History.Payload.{PolicySnapshot, DeliveryAuthorized, Entry, phase_was_checked}
use st_air_case.History.State.{Authorization, Replay, is_set}
use st_air_case.History.Refusals.{is_check_at, named, is_signed, digest_of, authorization_refused}

-- The entry at a position, from 1.
abbrev pub entry_at : ℕ → List Entry → Option Entry
entry_at k [] = none
entry_at k (e ∷ es) = if k == 1 then some e else entry_at (k - 1) es

-- The last checks are those of the entry at the position kept of them.
abbrev pub HasCheck : List Entry → Replay → Type 0
HasCheck es h =
    (h.end.checked ≡ 0)
    ⊎ ((e : Entry) × (entry_at h.end.checked es ≡ some e)
        × (e.event ≡ phase_was_checked (some h.end.check)))

-- The terms of an authorization.
pub record IsEarned (a : Authorization) (es : List Entry) (h : Replay) : Type 0 where
  pub check_entry : Entry
  pub stands : entry_at h.end.checked es ≡ some check_entry
  pub is_named : check_entry.event_hash ≡ a.auth_checked
  pub is_latest : check_entry.event ≡ phase_was_checked (some h.end.check)
  pub has_passed : h.end.check.passed ≡ true
  pub same_tree : h.end.check.checked_tree ≡ a.auth_tree
  pub not_offered : h.reviewed_since ≡ false
  pub by_policy : a.auth_mode ≡ "policy"
  pub terms_set : is_set h.bound.terms_sha256 ≡ true
  pub same_terms : a.auth_terms ≡ h.bound.terms_sha256
  pub snapshot : PolicySnapshot
  pub loaded : h.policy ≡ some snapshot
  pub is_signed_policy : snapshot.signed ≡ true
  pub same_policy : a.auth_policy ≡ snapshot.digest

pub entry_at-append :
    (k : ℕ) (es qs : List Entry) (e : Entry)
    → entry_at k es ≡ some e
    → entry_at k (es ++ qs) ≡ some e
entry_at-append k [] qs e h = cc h
entry_at-append k (x ∷ es) qs e h = elim (Bool-cases (k == 1)) [
  | inl yes' ↦ rw yes' (rw yes' at h)
  | inr no' ↦ rw no' (entry_at-append (k - 1) es qs e (rw no' at h))
]

pub entry_at-last :
    (es : List Entry) (e : Entry) → entry_at (suc (length es)) (es ++ e ∷ []) ≡ some e
entry_at-last [] e = refl
entry_at-last (x ∷ es) e = ground (arith, entry_at-last es e)

named_later :
    (hash : String) (x : Entry) (es : List Entry) (k : ℕ)
    → named hash (x ∷ es) ≡ k
    → k ≢ 0
    → is_check_at hash x ≡ false
    → (1 < k) × (named hash es ≡ k - 1)
unfolding named
named_later hash x es k h nz no' = ground arith

named_first :
    (hash : String) (x : Entry) (es : List Entry) (k : ℕ)
    → named hash (x ∷ es) ≡ k
    → is_check_at hash x ≡ true
    → k ≡ 1
unfolding named
named_first hash x es k h yes' = ground arith

pub named-entry_at :
    (hash : String) (es : List Entry) (k : ℕ)
    → named hash es ≡ k
    → k ≢ 0
    → (e : Entry) × (entry_at k es ≡ some e) × (e.event_hash ≡ hash)
unfolding named
named-entry_at hash [] k h nz = elim (nz (sym h)) [ ]
named-entry_at hash (x ∷ es) k h nz = elim (Bool-cases (is_check_at hash x)) [
  | inl yes' ↦
      (x, rw (named_first hash x es k h yes') refl, (eq_iff x.event_hash hash).0 (ground arith))
  | inr no' ↦
      let (later, rest) = named_later hash x es k h nz no' in
      let (e, at, same) = named-entry_at hash es (k - 1) rest (ground arith) in
      (e, ground (arith, at), same)
]

pub authorization_refused-none :
    (h : Replay) (before : List Entry) (p : DeliveryAuthorized)
    → authorization_refused h before p ≡ none
    → (named p.auth_checked before ≡ h.end.checked)
      × (h.end.checked ≢ 0)
      × (h.end.check.checked_tree ≡ p.auth_tree)
      × (h.end.check.passed ≡ true)
      × (h.reviewed_since ≡ false)
      × (p.auth_mode ≡ "policy")
      × (is_set h.bound.terms_sha256 ≡ true)
      × (p.auth_terms ≡ h.bound.terms_sha256)
      × (is_signed h.policy ≡ true)
      × (p.auth_policy ≡ digest_of h.policy)
unfolding authorization_refused
authorization_refused-none h before p e = (
  ground arith,
  ground arith,
  (eq_iff _ _).0 (ground arith),
  ground arith,
  ground arith,
  (eq_iff _ _).0 (ground arith),
  ground arith,
  (eq_iff _ _).0 (ground arith),
  ground arith,
  (eq_iff _ _).0 (ground arith),
)

-- ===== src/Chain/Tampering.antt =====
-- What a tampered chain takes: two chains of version 2 entries that verify and end in the same
-- hash hold the same entries, unless two different messages with one hash were found.
use st_air_case.Prelude.{
  ◌<◌, none, some, List, [], ◌∷◌, ◌≡◌, refl, ◌≢◌, ◌⊎◌, inl, inr, sym, ◌∙◌, arith, ltb, length, map,
  Bool-cases, All,
}
use st_air_case.Chain.{Bytes, Entry, bytes_eq, expected, verify, message_v2}
use st_air_case.Chain.Framing.{FitsWord, message_v2-injective}
use st_air_case.Chain.Verdicts.{bytes_eq_sound, bytes_eq_refl, head_hash, Linked, verify-Linked}

abbrev pub Collision : (Bytes → Bytes) → Type 0
Collision sha = (a : Bytes) × (b : Bytes) × (a ≢ b) × (sha a ≡ sha b)

-- An entry of version 2 whose fields fit their length prefixes.
pub record IsCurrent (e : Entry) : Type 0 where
  pub version_two : e.hash_version ≡ 2
  pub event_fits : FitsWord e.event_type
  pub payload_fits : FitsWord e.payload
  pub hash_fits : FitsWord e.event_hash
  pub commit_fits : FitsWord e.git_commit_hash

-- What the chain protects of an entry.
abbrev pub content : Entry → Bytes × Bytes × Bytes × Bytes
content e = (e.event_type, e.payload, e.git_commit_hash, e.event_hash)

module _ (sha : Bytes → Bytes) where
  hash_of :
      (e : Entry) (prev : Bytes)
      → IsCurrent e
      → expected sha e prev ≡ some e.event_hash
      → sha (message_v2 e.event_type e.payload prev e.git_commit_hash) ≡ e.event_hash
  unfolding expected
  hash_of e prev v h = ground arith

  same_message : (a b : Bytes) → sha a ≡ sha b → Collision sha ⊎ (a ≡ b)
  same_message a b h = elim (Bool-cases (bytes_eq a b)) [
    | inl same ↦ inr (bytes_eq_sound a b same)
    | inr other ↦ inl (a, b, (λ e. cc (bytes_eq_refl b, rw e at other)), h)
  ]

  same_entry :
      (x y : Entry) (prev prev' : Bytes)
      → IsCurrent x
      → IsCurrent y
      → FitsWord prev
      → FitsWord prev'
      → expected sha x prev ≡ some x.event_hash
      → expected sha y prev' ≡ some y.event_hash
      → x.event_hash ≡ y.event_hash
      → Collision sha ⊎ ((content x ≡ content y) × (prev ≡ prev'))
  same_entry x y prev prev' vx vy fp fp' hx hy e =
      elim (same_message (message_v2 x.event_type x.payload prev x.git_commit_hash)
        (message_v2 y.event_type y.payload prev' y.git_commit_hash)
        (hash_of x prev vx hx ∙ e ∙ sym (hash_of y prev' vy hy))) [
          | inl found ↦ inl found
          | inr same ↦
              let (p, q, r, s) =
                message_v2-injective x.event_type x.payload prev x.git_commit_hash y.event_type
                  y.payload prev' y.git_commit_hash
                  (vx.event_fits, (vx.payload_fits, (fp, (vx.commit_fits, tt))))
                  (vy.event_fits, (vy.payload_fits, (fp', (vy.commit_fits, tt)))) same in
              inr (cc, r)
        ]

  same_length :
      (xs ys : List Entry) (prev prev' : Bytes)
      → length xs ≡ length ys
      → All IsCurrent xs
      → All IsCurrent ys
      → FitsWord prev
      → FitsWord prev'
      → Linked sha prev xs
      → Linked sha prev' ys
      → head_hash prev xs ≡ head_hash prev' ys
      → Collision sha ⊎ ((map content xs ≡ map content ys) × (prev ≡ prev'))
  same_length [] [] prev prev' l vx vy fp fp' hx hy e = inr (refl, e)
  same_length [] (y ∷ ys) prev prev' l vx vy fp fp' hx hy e = absurd (omega arith)
  same_length (x ∷ xs) [] prev prev' l vx vy fp fp' hx hy e = absurd (omega arith)
  same_length (x ∷ xs) (y ∷ ys) prev prev' l vx vy fp fp' hx hy e =
      elim (same_length xs ys x.event_hash y.event_hash (omega arith) vx.1 vy.1 (vx.0.hash_fits)
        (vy.0.hash_fits) hx.1 hy.1 e) [
          | inl found ↦ inl found
          | inr (tails, hashes) ↦
              elim (same_entry x y prev prev' vx.0 vy.0 fp fp' hx.0 hy.0 hashes) [
                | inl found ↦ inl found
                | inr (heads, prevs) ↦ inr (cc, prevs)
              ]
        ]

  -- A longer chain meets a shorter one that starts at the empty hash only over a collision.
  longer :
      ((m : Bytes) → sha m ≢ [])
      → (xs ys : List Entry) (prev : Bytes) → length ys < length xs
      → All IsCurrent xs
      → All IsCurrent ys
      → Linked sha prev xs
      → Linked sha [] ys
      → head_hash prev xs ≡ head_hash [] ys
      → FitsWord prev
      → Collision sha
  longer nonempty [] ys prev l vx vy hx hy e fp = absurd (omega arith)
  longer nonempty (x ∷ xs) ys prev l vx vy hx hy e fp =
      elim (Bool-cases (ltb (length ys) (length xs))) [
        | inl more ↦
            longer nonempty xs ys x.event_hash (ground arith) vx.1 vy hx.1 hy e (vx.0.hash_fits)
        | inr level ↦
            elim (same_length xs ys x.event_hash [] (ground arith) vx.1 vy (vx.0.hash_fits)
              (omega arith) hx.1 hy e) [
                | inl found ↦ found
                | inr (tails, empty) ↦ absurd (nonempty _ (hash_of x prev vx.0 hx.0 ∙ empty))
              ]
      ]

  -- Two chains of current entries that both verify and end in the same hash hold the same event
  -- types, payloads, commits and hashes, entry by entry, or else two different messages with the
  -- same hash are given. The hash function prints nothing as the empty text.
  pub verify-tamper_evident :
      (xs ys : List Entry)
      → ((m : Bytes) → sha m ≢ [])
      → All IsCurrent xs
      → All IsCurrent ys
      → verify sha xs ≡ none
      → verify sha ys ≡ none
      → head_hash [] xs ≡ head_hash [] ys
      → Collision sha ⊎ (map content xs ≡ map content ys)
  verify-tamper_evident xs ys nonempty vx vy hx hy e =
      let lx = (verify-Linked sha xs).0 hx in
      let ly = (verify-Linked sha ys).0 hy in
      elim (Bool-cases (ltb (length ys) (length xs))) [
        | inl more ↦ inl (longer nonempty xs ys [] (ground arith) vx vy lx ly e (omega arith))
        | inr not_more ↦ elim (Bool-cases (ltb (length xs) (length ys))) [
          | inl less ↦
              inl (longer nonempty ys xs [] (ground arith) vy vx ly lx (sym e) (omega arith))
          | inr level ↦
              elim (same_length xs ys [] [] (ground arith) vx vy (omega arith) (omega arith) lx ly
                e) [ inl found ↦ inl found | inr (same, _) ↦ inr same ]
        ]
      ]

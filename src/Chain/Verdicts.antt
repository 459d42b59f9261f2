-- ===== src/Chain/Verdicts.antt =====
-- chain.go, Expected, Check and Verify: what the verdicts on a chain say.
use st_air_case.Prelude.{
  ℕ, suc, ◌+◌, true, Option, none, some, List, [], ◌∷◌, ◌++◌, ◌≡◌, refl, ◌↔◌, ap, sym, arith,
  length, Bool-cases, Option-cases, inl, inr, ==_iff, ◌==◌,
}
use st_air_case.Chain.{
  Bytes, Entry, bytes_eq, expected, judge, check_from, check, first_error, verify,
}

pub bytes_eq_refl : (a : Bytes) → bytes_eq a a ≡ true
bytes_eq_refl [] = refl
bytes_eq_refl (x ∷ xs) = rw ((==_iff x x).1 refl) (bytes_eq_refl xs)

pub bytes_eq_sound : (a b : Bytes) → bytes_eq a b ≡ true → a ≡ b
bytes_eq_sound [] [] h = refl
bytes_eq_sound [] (y ∷ ys) h = cc
bytes_eq_sound (x ∷ xs) [] h = cc
bytes_eq_sound (x ∷ xs) (y ∷ ys) h = elim (Bool-cases (x == y)) [
  | inl e ↦ cc ((==_iff x y).0 e, bytes_eq_sound xs ys (rw e at h))
  | inr e ↦ absurd (cc (rw e at h))
]

-- The hash stored on the last entry of a chain; `prev` where there is none.
abbrev pub head_hash : Bytes → List Entry → Bytes
head_hash prev [] = prev
head_hash prev (e ∷ es) = head_hash e.event_hash es

module _ (sha : Bytes → Bytes) where
  -- Every entry carries the hash that it must carry after the hash stored before it.
  abbrev pub Linked : Bytes → List Entry → Type 0
  Linked prev [] = Unit
  Linked prev (e ∷ es) = (expected sha e prev ≡ some e.event_hash) × Linked e.event_hash es

  judge-none :
      (n : ℕ) (e : Entry) (w : Option Bytes) → (judge sha n e w ≡ none) ↔ (w ≡ some e.event_hash)
  unfolding judge
  judge-none n e none = (λ h. cc, λ h. cc)
  judge-none n e (some want) = (
    λ h. elim (Bool-cases (bytes_eq e.event_hash want)) [
      | inl same ↦ ap some (sym (bytes_eq_sound e.event_hash want same))
      | inr other ↦ absurd (cc (rw other at h))
    ],
    λ h. let same : want ≡ e.event_hash = cc in rw same (rw (bytes_eq_refl e.event_hash)),
  )

  from_first :
      (n : ℕ) (prev : Bytes) (es : List Entry)
      → first_error (check_from sha n prev es) ≡ none
      → Linked prev es
  unfolding check_from first_error
  from_first n prev [] h = tt
  from_first n prev (e ∷ es) h = elim (Option-cases (judge sha n e (expected sha e prev))) [
    | inl fine ↦ (
      (judge-none n e (expected sha e prev)).0 fine,
      from_first (suc n) e.event_hash es (rw (fine, first_error) at h),
    )
    | inr (x, bad) ↦ absurd (cc (rw (bad, first_error) at h))
  ]

  to_first :
      (n : ℕ) (prev : Bytes) (es : List Entry)
      → Linked prev es
      → first_error (check_from sha n prev es) ≡ none
  unfolding check_from first_error
  to_first n prev [] h = refl
  to_first n prev (e ∷ es) h =
      rw ((judge-none n e (expected sha e prev)).1 h.0, first_error)
        (to_first (suc n) e.event_hash es h.1)

  -- `Verify` accepts a chain exactly when every entry carries the hash expected after the one stored
  -- before it, the first after the empty hash; an entry of an unknown version is never accepted.
  pub verify-Linked : (es : List Entry) → (verify sha es ≡ none) ↔ Linked [] es
  unfolding verify check
  verify-Linked es = (from_first 1 [] es, to_first 1 [] es)

  check_from-append :
      (n m : ℕ) (prev : Bytes) (xs ys : List Entry)
      → n + length xs ≡ m
      → check_from sha n prev (xs ++ ys)
        ≡ check_from sha n prev xs ++ check_from sha m (head_hash prev xs) ys
  unfolding check_from
  check_from-append n m prev [] ys h = let e : n ≡ m = omega arith in rw e
  check_from-append n m prev (x ∷ xs) ys h =
      ap (λ r. judge sha n x (expected sha x prev) ∷ r)
        (check_from-append (suc n) m x.event_hash xs ys (omega arith))

  -- The verdicts on the entries after a point depend on what stands before it only through the hash
  -- stored on the last entry there: a broken entry does not hide the ones after it.
  pub check-append :
      (xs ys : List Entry)
      → check sha (xs ++ ys) ≡ check sha xs ++ check_from sha (1 + length xs) (head_hash [] xs) ys
  unfolding check
  check-append xs ys = check_from-append 1 (1 + length xs) [] xs ys refl

  Linked-append :
      (prev : Bytes) (xs ys : List Entry)
      → Linked prev (xs ++ ys) ↔ (Linked prev xs × Linked (head_hash prev xs) ys)
  Linked-append prev [] ys = (λ h. (tt, h), λ h. h.1)
  Linked-append prev (x ∷ xs) ys =
      let (f, g) = Linked-append x.event_hash xs ys in
      (λ h. ((h.0, (f h.1).0), (f h.1).1), λ h. (h.0.0, g (h.0.1, h.1)))

  -- A chain with one more entry verifies exactly when the chain verifies and the entry carries the
  -- hash expected after the chain's head.
  pub verify-append :
      (xs : List Entry) (e : Entry)
      → (verify sha (xs ++ e ∷ []) ≡ none)
        ↔ ((verify sha xs ≡ none) × (expected sha e (head_hash [] xs) ≡ some e.event_hash))
  verify-append xs e =
      let (f, g) = verify-Linked (xs ++ e ∷ []) in
      let (f', g') = verify-Linked xs in
      let (s, t) = Linked-append [] xs (e ∷ []) in
      (λ h. (g' (s (f h)).0, (s (f h)).1.0), λ h. g (t (f' h.0, (h.1, tt))))

-- ===== src/Prelude/Lists.antt =====
-- Lists measured by native numbers, with Boolean tests, under the library's names.
use Prim.Native.Nat.{ℕ, suc, ◌+◌}
use mathlib.Core.Path.{◌≡◌, refl}
use mathlib.Core.Logic.{◌↔◌, inl, inr}
use mathlib.Core.Bool.{Bool, true, false, ◌&&◌, ◌||◌}
use mathlib.Core.List.{List, [], ◌∷◌, ◌++◌, Memᴰ}
use native.Mathlib.Omega.{arith}
use st_air_case.Prelude.Tests.{Bool-cases, if◌then◌else◌}

module _ {ℓ} {A : Type ℓ} where
  abbrev pub length : List A → ℕ
  length [] = 0
  length (x ∷ xs) = suc (length xs)

  pub length-append : (xs ys : List A) → length (xs ++ ys) ≡ length xs + length ys
  length-append [] ys = omega arith
  length-append (x ∷ xs) ys = omega (arith, length-append xs ys)

  -- `slices.ContainsFunc`, and a loop that returns true at the first element that passes.
  abbrev pub any : (A → Bool) → List A → Bool
  any p [] = false
  any p (x ∷ xs) = p x || any p xs

  -- A loop that returns false at the first element that fails.
  abbrev pub all : (A → Bool) → List A → Bool
  all p [] = true
  all p (x ∷ xs) = p x && all p xs

  -- A loop that appends the elements that pass.
  abbrev pub select : (A → Bool) → List A → List A
  select p [] = []
  select p (x ∷ xs) = if p x then x ∷ select p xs else select p xs

  abbrev pub All {κ} : (A → Type κ) → List A → Type κ
  All P [] = Unit
  All P (x ∷ xs) = P x × All P xs

  pub All-append {κ} : (P : A → Type κ) (xs ys : List A) → All P xs → All P ys → All P (xs ++ ys)
  All-append P [] ys hx hy = hy
  All-append P (x ∷ xs) ys hx hy = (hx.0, All-append P xs ys hx.1 hy)

  pub All-map {κ μ} :
      (P : A → Type κ) (Q : A → Type μ) (xs : List A) → ((x : A) → P x → Q x) → All P xs → All Q xs
  All-map P Q [] f h = tt
  All-map P Q (x ∷ xs) f h = (f x h.0, All-map P Q xs f h.1)

  pub All-mem {κ} : (P : A → Type κ) (x : A) (xs : List A) → All P xs → Memᴰ x xs → P x
  All-mem P x [] h m = elim m [ ]
  All-mem P x (y ∷ ys) h (Memᴰ.head e) = rw e h.0
  All-mem P x (y ∷ ys) h (Memᴰ.tail m) = All-mem P x ys h.1 m

  pub any_sound :
      (p : A → Bool) (xs : List A) → any p xs ≡ true → (x : A) × Memᴰ x xs × (p x ≡ true)
  any_sound p [] h = cc
  any_sound p (x ∷ xs) h = elim (Bool-cases (p x)) [
    | inl yes' ↦ (x, Memᴰ.head refl, yes')
    | inr no' ↦ let (y, m, e) = any_sound p xs (rw no' at h) in (y, Memᴰ.tail m, e)
  ]

  pub any_complete : (p : A → Bool) (x : A) (xs : List A) → Memᴰ x xs → p x ≡ true → any p xs ≡ true
  any_complete p x [] m h = elim m [ ]
  any_complete p x (y ∷ ys) (Memᴰ.head e) h = rw (← e) (rw h)
  any_complete p x (y ∷ ys) (Memᴰ.tail m) h = ground (arith, any_complete p x ys m h)

  pub all_iff : (p : A → Bool) (xs : List A) → (all p xs ≡ true) ↔ All (λ x. p x ≡ true) xs
  all_iff p [] = (λ h. tt, λ h. refl)
  all_iff p (x ∷ xs) = (
    λ h. (ground arith, (all_iff p xs).0 (ground arith)),
    λ h. ground (arith, (all_iff p xs).1 h.1),
  )

  -- Each element stands in the relation to every later one.
  abbrev pub Pairwise {κ} : (A → A → Type κ) → List A → Type (ℓ ⊔ κ)
  Pairwise R [] = Unit
  Pairwise R (x ∷ xs) = All (R x) xs × Pairwise R xs

  pub Pairwise-append {κ} :
      (R : A → A → Type κ) (xs : List A) (y : A)
      → Pairwise R xs
      → All (λ x. R x y) xs
      → Pairwise R (xs ++ y ∷ [])
  Pairwise-append R [] y p a = (tt, tt)
  Pairwise-append R (x ∷ xs) y p a =
      (All-append (R x) xs (y ∷ []) p.0 (a.0, tt), Pairwise-append R xs y p.1 a.1)

  pub Mem-append : (x : A) (xs ys : List A) → Memᴰ x xs → Memᴰ x (xs ++ ys)
  Mem-append x [] ys m = elim m [ ]
  Mem-append x (y ∷ xs) ys (Memᴰ.head e) = Memᴰ.head e
  Mem-append x (y ∷ xs) ys (Memᴰ.tail m) = Memᴰ.tail (Mem-append x xs ys m)

  pub Mem-last : (x : A) (xs : List A) → Memᴰ x (xs ++ x ∷ [])
  Mem-last x [] = Memᴰ.head refl
  Mem-last x (y ∷ xs) = Memᴰ.tail (Mem-last x xs)

  pub select-Mem :
      (p : A → Bool) (x : A) (xs : List A) → Memᴰ x xs → p x ≡ true → Memᴰ x (select p xs)
  select-Mem p x [] m h = elim m [ ]
  select-Mem p x (y ∷ xs) (Memᴰ.head e) h = rw (← e, h) (Memᴰ.head refl)
  select-Mem p x (y ∷ xs) (Memᴰ.tail m) h = elim (Bool-cases (p y)) [
    | inl yes' ↦ rw yes' (Memᴰ.tail (select-Mem p x xs m h))
    | inr no' ↦ rw no' (select-Mem p x xs m h)
  ]

  Mem-kept :
      (p : A → Bool) (x y : A) (xs : List A)
      → p y ≡ true
      → (Memᴰ x (select p xs) → Memᴰ x xs × (p x ≡ true))
      → Memᴰ x (y ∷ select p xs)
      → Memᴰ x (y ∷ xs) × (p x ≡ true)
  Mem-kept p x y xs yes' rest (Memᴰ.head e) = (Memᴰ.head e, rw e yes')
  Mem-kept p x y xs yes' rest (Memᴰ.tail m) = let (a, b) = rest m in (Memᴰ.tail a, b)

  pub Mem-select :
      (p : A → Bool) (x : A) (xs : List A) → Memᴰ x (select p xs) → Memᴰ x xs × (p x ≡ true)
  Mem-select p x [] m = elim m [ ]
  Mem-select p x (y ∷ xs) m = elim (Bool-cases (p y)) [
    | inl yes' ↦ Mem-kept p x y xs yes' (Mem-select p x xs) (rw yes' at m)
    | inr no' ↦ let (a, b) = Mem-select p x xs (rw no' at m) in (Memᴰ.tail a, b)
  ]

  pub select-All {κ} :
      (P : A → Type κ) (p : A → Bool) (xs : List A) → All P xs → All P (select p xs)
  select-All P p [] h = tt
  select-All P p (x ∷ xs) h = elim (Bool-cases (p x)) [
    | inl yes' ↦ rw yes' (h.0, select-All P p xs h.1)
    | inr no' ↦ rw no' (select-All P p xs h.1)
  ]

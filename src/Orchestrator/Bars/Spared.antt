-- ===== src/Orchestrator/Bars/Spared.antt =====
-- bars.go: what is true of files that no bar stops.
use st_air_case.Prelude.{
  String, ◌≡◌, refl, inl, inr, Bool, true, false, not, Option, none, some, List, [], ◌∷◌, arith,
  All, All-map, Bool-cases,
}
use st_air_case.Glob.{is_nil}
use st_air_case.Orchestrator.Bars.{
  Bar, first, stopped_at, or_else, matches_fold, sensitive, builtin_sensitive, protected_bar,
  sensitive_bar, outside_scope,
}

first-none :
    {A : Type 0} (p : A → Bool) (xs : List A) → first p xs ≡ none → All (λ x. p x ≡ false) xs
unfolding first
first-none p [] h = tt
first-none p (x ∷ xs) h = elim (Bool-cases (p x)) [
  | inl yes' ↦ absurd (cc (rw yes' at h))
  | inr no' ↦ (no', first-none p xs (rw no' at h))
]

stopped_at-none : (w : String → Bar) (o : Option String) → stopped_at w o ≡ none → o ≡ none
stopped_at-none w none h = refl
stopped_at-none w (some f) h = absurd (cc h)

pub or_else-none : (a b : Option Bar) → or_else a b ≡ none → (a ≡ none) × (b ≡ none)
or_else-none none b h = (refl, h)
or_else-none (some w) b h = absurd (cc h)

module _ (path_match : String → String → Option Bool) (to_lower : String → String) where
  abbrev pub Spares : List String → String → Type 0
  Spares patterns f = matches_fold path_match to_lower patterns f ≡ false

  pub protected_bar-none :
      (patterns files : List String)
      → protected_bar path_match to_lower patterns files ≡ none
      → All (Spares patterns) files
  unfolding protected_bar
  protected_bar-none patterns files h = first-none _ files (stopped_at-none _ _ h)

  pub sensitive_bar-none :
      (extra files : List String)
      → sensitive_bar path_match to_lower extra files ≡ none
      → All (Spares builtin_sensitive) files × All (Spares extra) files
  unfolding sensitive_bar sensitive
  sensitive_bar-none extra files h =
      let (a, b) = or_else-none _ _ h in
      (first-none _ files (stopped_at-none _ _ a), first-none _ files (stopped_at-none _ _ b))

  not-false : (b : Bool) → not b ≡ false → b ≡ true
  not-false b h = ground arith

  pub outside_scope-none :
      (scope files : List String)
      → outside_scope path_match to_lower scope files ≡ none
      → is_nil scope ≡ false
      → All (λ f. matches_fold path_match to_lower scope f ≡ true) files
  unfolding outside_scope
  outside_scope-none scope files h e =
      All-map _ _ files (λ f. not-false (matches_fold path_match to_lower scope f))
        (first-none _ files (stopped_at-none _ _ (rw e at h)))

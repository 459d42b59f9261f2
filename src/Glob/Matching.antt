-- ===== src/Glob/Matching.antt =====
-- glob.go, globMatchParts: the matcher decides the relation "`**` stands for any number of
-- components, and every other component for one that it matches".
use st_air_case.Prelude.{
  String, Bool, true, false, Option, List, [], ◌∷◌, ◌≡◌, refl, ◌≢◌, ◌↔◌, ◌⊎◌, inl, inr, arith,
  str_eq, eq_iff, Bool-cases, any_sound, any_complete, Memᴰ,
}
use st_air_case.Glob.{
  is_match, some_suffix, match_head, glob_match_parts, match_glob, match_any, has_stars, split,
}

-- Which names a pattern describes, component by component.
pub data Describes (path_match : String → String → Option Bool)
    : List String → List String → Type 0 where
  both_end : Describes path_match [] []
  one :
      {p n : String} {ps ns : List String}
      → p ≢ "**"
      → is_match (path_match p n) ≡ true
      → Describes path_match ps ns
      → Describes path_match (p ∷ ps) (n ∷ ns)
  no_more :
      {p : String} {ps ns : List String}
      → p ≡ "**"
      → Describes path_match ps ns
      → Describes path_match (p ∷ ps) ns
  one_more :
      {p n : String} {ps ns : List String}
      → p ≡ "**"
      → Describes path_match (p ∷ ps) ns
      → Describes path_match (p ∷ ps) (n ∷ ns)

module _ (path_match : String → String → Option Bool) where
  stars_take_all : (p : String) (ns : List String) → p ≡ "**" → Describes path_match (p ∷ []) ns
  stars_take_all p [] e = Describes.no_more e Describes.both_end
  stars_take_all p (n ∷ ns) e = Describes.one_more e (stars_take_all p ns e)

  suffix_sound :
      (p : String) (ps ns : List String)
      → p ≡ "**"
      → ((ms : List String) → glob_match_parts path_match ps ms ≡ true → Describes path_match ps ms)
      → some_suffix (glob_match_parts path_match ps) ns ≡ true
      → Describes path_match (p ∷ ps) ns
  unfolding some_suffix
  suffix_sound p ps [] e rec h = Describes.no_more e (rec [] h)
  suffix_sound p ps (n ∷ ns) e rec h = elim (Bool-cases (glob_match_parts path_match ps (n ∷ ns))) [
    | inl here ↦ Describes.no_more e (rec (n ∷ ns) here)
    | inr later ↦ Describes.one_more e (suffix_sound p ps ns e rec (rw later at h))
  ]

  head_sound :
      (p : String) (ps ns : List String)
      → p ≢ "**"
      → ((ms : List String) → glob_match_parts path_match ps ms ≡ true → Describes path_match ps ms)
      → match_head path_match p (glob_match_parts path_match ps) ns ≡ true
      → Describes path_match (p ∷ ps) ns
  unfolding match_head
  head_sound p ps [] ne rec h = cc
  head_sound p ps (n ∷ ns) ne rec h = elim (Bool-cases (is_match (path_match p n))) [
    | inl ok ↦ Describes.one ne ok (rec ns (rw ok at h))
    | inr bad ↦ absurd (cc (rw bad at h))
  ]

  parts_sound :
      (ps ns : List String) → glob_match_parts path_match ps ns ≡ true → Describes path_match ps ns
  unfolding glob_match_parts
  parts_sound [] [] h = Describes.both_end
  parts_sound [] (n ∷ ns) h = cc
  parts_sound (p ∷ []) ns h = elim (Bool-cases (str_eq p "**")) [
    | inl stars ↦ stars_take_all p ns ((eq_iff p "**").0 stars)
    | inr plain ↦
        head_sound p [] ns (λ e. cc ((eq_iff p "**").1 e)) (parts_sound [])
          (rw (plain, glob_match_parts) at h)
  ]
  parts_sound (p ∷ q ∷ ps) ns h = elim (Bool-cases (str_eq p "**")) [
    | inl stars ↦
        suffix_sound p (q ∷ ps) ns ((eq_iff p "**").0 stars) (parts_sound (q ∷ ps))
          (rw (stars, glob_match_parts) at h)
    | inr plain ↦
        head_sound p (q ∷ ps) ns (λ e. cc ((eq_iff p "**").1 e)) (parts_sound (q ∷ ps))
          (rw (plain, glob_match_parts) at h)
  ]

  some_suffix_here :
      (f : List String → Bool) (ns : List String) → f ns ≡ true → some_suffix f ns ≡ true
  unfolding some_suffix
  some_suffix_here f [] h = h
  some_suffix_here f (n ∷ ns) h = rw h

  some_suffix_later :
      (f : List String → Bool) (n : String) (ns : List String)
      → some_suffix f ns ≡ true
      → some_suffix f (n ∷ ns) ≡ true
  unfolding some_suffix
  some_suffix_later f n ns h = ground arith

  parts_no_more :
      (p : String) (ps ns : List String)
      → p ≡ "**"
      → glob_match_parts path_match ps ns ≡ true
      → glob_match_parts path_match (p ∷ ps) ns ≡ true
  unfolding glob_match_parts
  parts_no_more p [] ns e h = rw ((eq_iff p "**").1 e, glob_match_parts)
  parts_no_more p (q ∷ ps) ns e h =
      rw ((eq_iff p "**").1 e, glob_match_parts)
        (some_suffix_here (glob_match_parts path_match (q ∷ ps)) ns h)

  parts_one_more :
      (p n : String) (ps ns : List String)
      → p ≡ "**"
      → glob_match_parts path_match (p ∷ ps) ns ≡ true
      → glob_match_parts path_match (p ∷ ps) (n ∷ ns) ≡ true
  unfolding glob_match_parts
  parts_one_more p n [] ns e h = rw ((eq_iff p "**").1 e, glob_match_parts)
  parts_one_more p n (q ∷ ps) ns e h =
      rw ((eq_iff p "**").1 e, glob_match_parts)
        (some_suffix_later (glob_match_parts path_match (q ∷ ps)) n ns
          (rw ((eq_iff p "**").1 e, glob_match_parts) at h))

  parts_one :
      (p n : String) (ps ns : List String)
      → p ≢ "**"
      → is_match (path_match p n) ≡ true
      → glob_match_parts path_match ps ns ≡ true
      → glob_match_parts path_match (p ∷ ps) (n ∷ ns) ≡ true
  unfolding glob_match_parts
  parts_one p n ps ns ne m h = elim (Bool-cases (str_eq p "**")) [
    | inl stars ↦ absurd (ne ((eq_iff p "**").0 stars))
    | inr plain ↦ rw (plain, glob_match_parts) (rw m h)
  ]

  parts_complete :
      {ps ns : List String} → Describes path_match ps ns → glob_match_parts path_match ps ns ≡ true
  parts_complete Describes.both_end = unfold glob_match_parts in refl
  parts_complete (Describes.one ne m d) = parts_one _ _ _ _ ne m (parts_complete d)
  parts_complete (Describes.no_more e d) = parts_no_more _ _ _ e (parts_complete d)
  parts_complete (Describes.one_more e d) = parts_one_more _ _ _ _ e (parts_complete d)

  -- The component matcher accepts a name exactly when the pattern describes it: `**` stands for any
  -- number of components, none included, and any other component for exactly one that
  -- `filepath.Match` accepts.
  pub glob_match_parts-Describes :
      (ps ns : List String)
      → (glob_match_parts path_match ps ns ≡ true) ↔ Describes path_match ps ns
  glob_match_parts-Describes ps ns = (parts_sound ps ns, parts_complete)

  match_glob_cases :
      (p name : String)
      → match_glob path_match p name ≡ true
      → (has_stars p ≡ false) × (is_match (path_match p name) ≡ true)
        ⊎ (has_stars p ≡ true) × Describes path_match (split p) (split name)
  unfolding match_glob
  match_glob_cases p name h = elim (Bool-cases (has_stars p)) [
    | inl stars ↦ inr (stars, parts_sound (split p) (split name) (rw stars at h))
    | inr plain ↦ inl (plain, rw plain at h)
  ]

  match_glob_of :
      (p name : String)
      → (has_stars p ≡ false) × (is_match (path_match p name) ≡ true)
        ⊎ (has_stars p ≡ true) × Describes path_match (split p) (split name)
      → match_glob path_match p name ≡ true
  unfolding match_glob
  match_glob_of p name (inl (plain, m)) = rw plain m
  match_glob_of p name (inr (stars, d)) = rw stars (parts_complete d)

  -- A name matches a list of patterns exactly when some pattern of the list either has no `**` and
  -- is matched by `filepath.Match` as a whole, or has `**` and describes the name component by
  -- component.
  pub match_any_iff :
      (patterns : List String) (name : String)
      → (match_any path_match patterns name ≡ true) ↔ (
          (p : String) × Memᴰ p patterns
          × ((has_stars p ≡ false) × (is_match (path_match p name) ≡ true)
              ⊎ (has_stars p ≡ true) × Describes path_match (split p) (split name)))
  unfolding match_any
  match_any_iff patterns name = (
    λ h.
        let (p, m, e) = any_sound (λ p. match_glob path_match p name) patterns h in
        (p, m, match_glob_cases p name e),
    λ (p, m, c).
        any_complete (λ p. match_glob path_match p name) p patterns m (match_glob_of p name c),
  )

-- ===== src/Glob/Examples.antt =====
-- Runs of the glob matcher, with a `filepath.Match` that knows `*` alone and literal components.
use st_air_case.Prelude.{
  String, Bool, true, false, Option, some, [], ◌∷◌, ◌≡◌, refl, ◌↔◌, ◌⊎◌, str_eq, Memᴰ, ◌||◌,
}
use st_air_case.Glob.{
  is_match, has_stars, split, glob_match_parts, match_glob, match_any, valid_glob,
}
use st_air_case.Glob.Matching.{Describes, glob_match_parts-Describes, match_any_iff}

abbrev simple_match : String → String → Option Bool
simple_match p n = some (str_eq p "*" || str_eq p n)

docs_deep :
    glob_match_parts simple_match ("docs" ∷ "**" ∷ "*" ∷ []) ("docs" ∷ "a" ∷ "b" ∷ []) ≡ true
unfolding glob_match_parts
docs_deep = refl

docs_only : match_any simple_match ("docs/**" ∷ []) "docs/adr/0001.md" ≡ true
unfolding match_any match_glob glob_match_parts split has_stars
docs_only = refl

outside_docs : match_any simple_match ("docs/**" ∷ []) "src/docs" ≡ false
unfolding match_any match_glob glob_match_parts split has_stars
outside_docs = refl

empty_is_no_glob : valid_glob simple_match "" ≡ false
unfolding valid_glob
empty_is_no_glob = refl

glob_match_parts-Describes_example :
    (glob_match_parts simple_match ("docs" ∷ "**" ∷ []) ("docs" ∷ "a" ∷ []) ≡ true)
    ↔ Describes simple_match ("docs" ∷ "**" ∷ []) ("docs" ∷ "a" ∷ [])
glob_match_parts-Describes_example =
    glob_match_parts-Describes simple_match ("docs" ∷ "**" ∷ []) ("docs" ∷ "a" ∷ [])

match_any_iff_example : (match_any simple_match ("docs/**" ∷ []) "docs/a" ≡ true) ↔ (
    (p : String) × Memᴰ p ("docs/**" ∷ [])
    × ((has_stars p ≡ false) × (is_match (simple_match p "docs/a") ≡ true)
        ⊎ (has_stars p ≡ true) × Describes simple_match (split p) (split "docs/a")))
match_any_iff_example = match_any_iff simple_match ("docs/**" ∷ []) "docs/a"

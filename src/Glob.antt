-- ===== src/Glob.antt =====
-- src/internal/engine/glob.go: the matching of paths against patterns with `**`.
-- A path is a text with slashes (`filepath.ToSlash` changes nothing on the systems modelled).
-- `path_match` stands for `filepath.Match` (`none` is its ErrBadPattern) and `to_lower` for
-- `strings.ToLower`: everything here holds for any such functions.
pub mod Matching
pub mod Pieces
mod Examples
use Prim.Native.Char.{Char, code}
use st_air_case.Prelude.{
  String, Bool, true, false, ◌&&◌, ◌||◌, Option, none, some, List, [], ◌∷◌, ◌==◌, str_eq, any, all,
  map, if◌then◌else◌,
}

-- Puts a character before the first of the pieces that `split` has cut so far.
add_char : Char → List String → List String
add_char c [] = String.◌∷◌ c "" ∷ []
add_char c (w ∷ ws) = String.◌∷◌ c w ∷ ws

-- `strings.Split(s, "/")`
unfoldable pub split : String → List String
unfolding add_char
split String.[] = "" ∷ []
split (String.◌∷◌ c s) = if code c == b'/' then "" ∷ split s else add_char c (split s)

starts_star : String → Bool
starts_star String.[] = false
starts_star (String.◌∷◌ c s) = code c == b'*'

-- `strings.Contains(pattern, "**")`
unfoldable pub has_stars : String → Bool
unfolding starts_star
has_stars String.[] = false
has_stars (String.◌∷◌ c s) = (code c == b'*' && starts_star s) || has_stars s

abbrev pub is_match : Option Bool → Bool
is_match (some b) = b
is_match none = false

abbrev pub is_valid : Option Bool → Bool
is_valid (some b) = true
is_valid none = false

abbrev pub is_nil {ℓ} : {A : Type ℓ} → List A → Bool
is_nil [] = true
is_nil (x ∷ xs) = false

-- The loop over `name[i:]` for i from 0 to len(name).
pub some_suffix : (List String → Bool) → List String → Bool
some_suffix f [] = f []
some_suffix f (n ∷ ns) = f (n ∷ ns) || some_suffix f ns

module _ (path_match : String → String → Option Bool) where
  -- A component other than `**` takes exactly one component of the name.
  match_head : String → (List String → Bool) → List String → Bool
  match_head p rest [] = false
  match_head p rest (n ∷ ns) = if is_match (path_match p n) then rest ns else false

  unfoldable pub glob_match_parts : List String → List String → Bool
  unfolding match_head some_suffix
  glob_match_parts [] name = is_nil name
  glob_match_parts (p ∷ ps) name = elim (str_eq p "**") [
    | true ↦ if is_nil ps then true else some_suffix (glob_match_parts ps) name
    | false ↦ match_head p (glob_match_parts ps) name
  ]

  unfoldable pub match_glob : String → String → Bool
  match_glob pattern name =
      if has_stars pattern
      then glob_match_parts (split pattern) (split name)
      else is_match (path_match pattern name)

  unfoldable pub match_any : List String → String → Bool
  match_any patterns name = any (λ p. match_glob p name) patterns

  unfoldable pub match_any_fold : (String → String) → List String → String → Bool
  unfolding match_any
  match_any_fold to_lower patterns name = match_any (map to_lower patterns) (to_lower name)

  unfoldable pub valid_segment : String → Bool
  valid_segment seg = str_eq seg "**" || is_valid (path_match seg "")

  unfoldable pub valid_glob : String → Bool
  valid_glob pattern = if str_eq pattern "" then false else all valid_segment (split pattern)

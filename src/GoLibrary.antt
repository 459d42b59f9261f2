-- ===== src/GoLibrary.antt =====
-- What the policy engine uses of Go's standard library: `filepath.Ext` is defined here; the letter
-- case of Unicode text, `filepath.Match` and 64-bit floats are an interface with no laws, so that
-- what is proved over it holds for Go's own functions.
pub mod Bytes
use Prim.Native.Char.{code}
use st_air_case.Prelude.{String, Bool, Option, ◌==◌, ◌≡◌, refl, if◌then◌else◌}

pub record GoLibrary : Type 1 where
  -- `float64`, `x == 0` and `x >= y`
  pub Score : Type 0
  pub is_zero : Score → Bool
  pub at_least : Score → Score → Bool
  -- `strings.ToLower`, `strings.EqualFold`, `filepath.Match`
  pub to_lower : String → String
  pub equal_fold : String → String → Bool
  pub path_match : String → String → Option Bool

-- The suffix from the last dot seen, forgotten at each slash.
ext_from : String → String → String
ext_from found String.[] = found
ext_from found (String.◌∷◌ c s) =
    ext_from (if code c == b'/' then "" else if code c == b'.' then String.◌∷◌ c s else found) s

-- `filepath.Ext`
unfoldable pub ext : String → String
unfolding ext_from
ext path = ext_from "" path

ext_of_last : ext "a.b/c.tar.gz" ≡ ".gz"
unfolding ext
ext_of_last = refl

no_ext : ext "a.b/Makefile" ≡ ""
unfolding ext
no_ext = refl

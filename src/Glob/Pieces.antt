-- ===== src/Glob/Pieces.antt =====
-- src/internal/engine/glob.go: the components of a path, which `strings.Split` cuts at its slashes.
use Prim.Native.Char.{Char, code}
use st_air_case.Prelude.{
  String, Bool, false, ◌||◌, List, [], ◌∷◌, ◌==◌, All, ◌≡◌, refl, inl, inr, Bool-cases,
}
use st_air_case.Glob.{split, add_char}

unfoldable pub has_slash : String → Bool
has_slash String.[] = false
has_slash (String.◌∷◌ c s) = code c == b'/' || has_slash s

abbrev Slashless : List String → Type 0
Slashless ps = All (λ p. has_slash p ≡ false) ps

add_char-Slashless :
    (c : Char) (ws : List String)
    → (code c == b'/') ≡ false
    → Slashless ws
    → Slashless (add_char c ws)
unfolding add_char has_slash
add_char-Slashless c [] n h = (rw n refl, tt)
add_char-Slashless c (w ∷ ws) n h = (rw n h.0, h.1)

pub split-Slashless : (s : String) → All (λ p. has_slash p ≡ false) (split s)
unfolding split has_slash
split-Slashless String.[] = (refl, tt)
split-Slashless (String.◌∷◌ c s) = elim (Bool-cases (code c == b'/')) [
  | inl slash ↦ rw slash (refl, split-Slashless s)
  | inr other ↦ rw other (add_char-Slashless c (split s) other (split-Slashless s))
]

-- ===== src/GoLibrary/Bytes.antt =====
-- Go's bytes, strings and unicode/utf8 packages, as far as the program uses them: a slice of bytes is its
-- list of numbers below 256. `ReplaceAll` is written out for the line breaks it is called with.
use Prim.Native.Char.{code}
use st_air_case.Prelude.{
  ℕ, zero, suc, ◌+◌, ◌-◌, ◌/◌, ◌%◌, String, Bool, true, false, ◌&&◌, ◌||◌, Option, none, some, List,
  [], ◌∷◌, ◌++◌, length, ltb, leb, ◌==◌, if◌then◌else◌, ◌≡◌, refl,
}

abbrev pub Bytes : Type 0
Bytes = List ℕ

-- The UTF-8 bytes of a character.
encode_char : ℕ → Bytes
encode_char n =
    if ltb n 0x80
    then n ∷ []
    else if ltb n 0x800
    then (0xC0 + n / 64) ∷ (0x80 + n % 64) ∷ []
    else if ltb n 0x10000
    then (0xE0 + n / 4096) ∷ (0x80 + n / 64 % 64) ∷ (0x80 + n % 64) ∷ []
    else (0xF0 + n / 262144) ∷ (0x80 + n / 4096 % 64) ∷ (0x80 + n / 64 % 64) ∷ (0x80 + n % 64) ∷ []

-- `[]byte(s)`
unfoldable pub bytes : String → Bytes
unfolding encode_char
bytes String.[] = []
bytes (String.◌∷◌ c s) = encode_char (code c) ++ bytes s

-- The first byte of a character: how many bytes follow, and the bounds of the next of them.
record Lead : Type 0 where
  pub follow : ℕ
  pub low : ℕ
  pub high : ℕ

between : ℕ → ℕ → ℕ → Bool
between a b c = leb a c && leb c b

lead : ℕ → Option Lead
unfolding between
lead c =
    if ltb c 0x80
    then some (record { follow = 0; low = 0x80; high = 0xBF })
    else if between 0xC2 0xDF c
    then some (record { follow = 1; low = 0x80; high = 0xBF })
    else if c == 0xE0
    then some (record { follow = 2; low = 0xA0; high = 0xBF })
    else if c == 0xED
    then some (record { follow = 2; low = 0x80; high = 0x9F })
    else if between 0xE1 0xEF c
    then some (record { follow = 2; low = 0x80; high = 0xBF })
    else if c == 0xF0
    then some (record { follow = 3; low = 0x90; high = 0xBF })
    else if c == 0xF4
    then some (record { follow = 3; low = 0x80; high = 0x8F })
    else if between 0xF1 0xF3 c
    then some (record { follow = 3; low = 0x80; high = 0xBF })
    else none

-- The bytes behind a character's first, `follow` of them still to come.
valid_from : Lead → Bytes → Bool
unfolding lead between
valid_from l [] = l.follow == 0
valid_from l (c ∷ s) = elim (l.follow) [
  | zero ↦ elim (lead c) [ none ↦ false | some l' ↦ valid_from l' s ]
  | suc k ↦ elim (between l.low l.high c) [
    | true ↦ valid_from (record { follow = k; low = 0x80; high = 0xBF }) s
    | false ↦ false
  ]
]

-- `utf8.Valid`
unfoldable pub utf8_valid : Bytes → Bool
unfolding valid_from
utf8_valid s = valid_from (record { follow = 0; low = 0x80; high = 0xBF }) s

-- `bytes.HasPrefix(s, p)`
unfoldable pub has_prefix : Bytes → Bytes → Bool
has_prefix s [] = true
has_prefix [] (p ∷ ps) = false
has_prefix (c ∷ s) (p ∷ ps) = c == p && has_prefix s ps

-- What is left behind a prefix of this length.
unfoldable pub drop : ℕ → Bytes → Bytes
drop zero s = s
drop (suc n) [] = []
drop (suc n) (c ∷ s) = drop n s

-- `bytes.Contains(s, p)`
unfoldable pub contains_bytes : Bytes → Bytes → Bool
unfolding has_prefix
contains_bytes [] p = has_prefix [] p
contains_bytes (c ∷ s) p = has_prefix (c ∷ s) p || contains_bytes s p

-- `bytes.Replace(s, old, with', 1)`
unfoldable pub replace_first : Bytes → Bytes → Bytes → Bytes
unfolding has_prefix drop
replace_first [] old with' = if has_prefix [] old then with' else []
replace_first (c ∷ s) old with' =
    if has_prefix (c ∷ s) old
    then with' ++ drop (length old) (c ∷ s)
    else c ∷ replace_first s old with'

-- `strings.Count(s, p)` of a `p` that is not empty, behind `skip` bytes of the last occurrence.
unfoldable pub count_from : ℕ → Bytes → Bytes → ℕ
unfolding has_prefix
count_from skip [] p = 0
count_from (suc k) (c ∷ s) p = count_from k s p
count_from zero (c ∷ s) p = elim (has_prefix (c ∷ s) p) [
  | true ↦ suc (count_from (length p - 1) s p)
  | false ↦ count_from zero s p
]

unfoldable pub count_bytes : Bytes → Bytes → ℕ
unfolding count_from
count_bytes s p = count_from 0 s p

abbrev pub cr : ℕ
cr = 13

abbrev pub lf : ℕ
lf = 10

-- The number of a byte: `bytes.Count(s, []byte{b})`.
unfoldable pub count_byte : ℕ → Bytes → ℕ
count_byte b [] = 0
count_byte b (c ∷ s) = (if c == b then 1 else 0) + count_byte b s

-- `bytes.Count(s, "\r\n")`, behind a byte that was `\r` or not.
unfoldable pub count_crlf : Bool → Bytes → ℕ
count_crlf after_cr [] = 0
count_crlf after_cr (c ∷ s) = (if after_cr && c == lf then 1 else 0) + count_crlf (c == cr) s

-- `bytes.ReplaceAll(s, "\r\n", "\n")`
unfoldable pub crlf_to_lf : Bytes → Bytes
crlf_to_lf [] = []
crlf_to_lf (c ∷ []) = c ∷ []
crlf_to_lf (c ∷ d ∷ s) = elim (c == cr && d == lf) [
  | true ↦ lf ∷ crlf_to_lf s
  | false ↦ c ∷ crlf_to_lf (d ∷ s)
]

-- `bytes.ReplaceAll(s, "\n", "\r\n")`
unfoldable pub lf_to_crlf : Bytes → Bytes
lf_to_crlf [] = []
lf_to_crlf (c ∷ s) = let rest = lf_to_crlf s in if c == lf then cr ∷ lf ∷ rest else c ∷ rest

-- `bytes.ReplaceAll(s, "\r", "\n")`
unfoldable pub cr_to_lf : Bytes → Bytes
cr_to_lf [] = []
cr_to_lf (c ∷ s) = let rest = cr_to_lf s in (if c == cr then lf else c) ∷ rest

-- `bytes.Equal`
unfoldable pub equal_bytes : Bytes → Bytes → Bool
equal_bytes [] [] = true
equal_bytes (a ∷ s) (b ∷ t) = a == b && equal_bytes s t
equal_bytes _ _ = false

euro_is_text : utf8_valid (bytes "a€") ≡ true
unfolding utf8_valid bytes
euro_is_text = refl

half_a_euro : utf8_valid (97 ∷ 226 ∷ 130 ∷ []) ≡ false
unfolding utf8_valid
half_a_euro = refl

counted : count_bytes (bytes "ababa") (bytes "aba") ≡ 1
unfolding count_bytes bytes
counted = refl

first_replaced : replace_first (bytes "abab") (bytes "ab") (bytes "c") ≡ bytes "cab"
unfolding replace_first bytes
first_replaced = refl

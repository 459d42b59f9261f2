-- ===== src/Orchestrator/Files/Linebreaks.antt =====
-- approval.go, `derive` on an edit with a search block: the line breaks of the file it leaves.
use st_air_case.Prelude.{
  ℕ, ◌+◌, ◌≤◌, ◌<◌, String, ◌≡◌, refl, sym, ◌∙◌, subst, inl, inr, Bool, true, false, Option, none,
  some, [], ◌∷◌, ◌++◌, arith, length, ◌==◌, if◌then◌else◌, Bool-cases, ok,
}
use st_air_case.Domain.{ProposedEdit}
use st_air_case.GoLibrary.Bytes.{
  Bytes, has_prefix, drop, bytes, cr, lf, count_byte, count_crlf, crlf_to_lf, lf_to_crlf, cr_to_lf,
}
use st_air_case.Orchestrator.Files.Replacing.{IsFirst, edit_file-IsFirst}
use st_air_case.Orchestrator.Files.{present, Mode, all_crlf, universal_newlines, fit, edit_file}

-- Reads bytes whose line breaks are all `\r\n`: whether the last byte was `\r`, or none where a `\r` or a
-- `\n` stands alone.
unfoldable pub scan : Bool → Bytes → Option Bool
scan after_cr [] = some after_cr
scan true (c ∷ s) = if c == lf then scan false s else none
scan false (c ∷ s) = if c == cr then scan true s else if c == lf then none else scan false s

-- All line breaks are `\r\n`.
abbrev pub IsCrlf : Bytes → Type 0
IsCrlf s = scan false s ≡ some false

-- No `\r`.
abbrev pub HasNoCr : Bytes → Type 0
HasNoCr s = count_byte cr s ≡ 0

count-append : (b : ℕ) (s t : Bytes) → count_byte b (s ++ t) ≡ count_byte b s + count_byte b t
unfolding count_byte
count-append b [] t = omega arith
count-append b (c ∷ s) t = let k = count-append b s t in omega (arith, k)

crlf_at_most :
    (after_cr : Bool) (s : Bytes)
    → (count_crlf after_cr s ≤ count_byte lf s)
      × (count_crlf after_cr s ≤ count_byte cr s + (if after_cr then 1 else 0))
unfolding count_crlf count_byte
crlf_at_most after_cr [] = ground arith
crlf_at_most after_cr (c ∷ s) = let (a, b) = crlf_at_most (c == cr) s in ground arith

crlf-scan :
    (after_cr : Bool) (s : Bytes)
    → count_crlf after_cr s ≡ count_byte lf s
    → count_crlf after_cr s ≡ count_byte cr s + (if after_cr then 1 else 0)
    → scan after_cr s ≡ some false
unfolding count_crlf count_byte scan
crlf-scan true [] h k = ground arith
crlf-scan false [] h k = refl
crlf-scan true (c ∷ s) h k =
    let (a, b) = crlf_at_most (c == cr) s in
    elim (Bool-cases (c == lf)) [
      | inl e ↦ rw e (crlf-scan false s (ground arith) (ground arith))
      | inr e ↦ absurd (ground arith)
    ]
crlf-scan false (c ∷ s) h k =
    let (a, b) = crlf_at_most (c == cr) s in
    elim (Bool-cases (c == cr)) [
      | inl e ↦ rw e (crlf-scan true s (ground arith) (ground arith))
      | inr e ↦ elim (Bool-cases (c == lf)) [
        | inl e' ↦ absurd (ground arith)
        | inr e' ↦ rw (e, e') (crlf-scan false s (ground arith) (ground arith))
      ]
    ]

scan-append : (b : Bool) (s t : Bytes) (c : Bool) → scan b s ≡ some c → scan b (s ++ t) ≡ scan c t
unfolding scan
scan-append b [] t c h = let e : b ≡ c = ground arith in rw e refl
scan-append true (x ∷ s) t c h = elim (Bool-cases (x == lf)) [
  | inl e ↦ rw e (scan-append false s t c (rw e at h))
  | inr e ↦ absurd (cc (rw e at h))
]
scan-append false (x ∷ s) t c h = elim (Bool-cases (x == cr)) [
  | inl e ↦ rw e (scan-append true s t c (rw e at h))
  | inr e ↦ elim (Bool-cases (x == lf)) [
    | inl e' ↦ absurd (cc (rw (e, e') at h))
    | inr e' ↦ rw (e, e') (scan-append false s t c (rw (e, e') at h))
  ]
]

-- Where the whole is read, so is each beginning.
scan-split :
    (b : Bool) (s t : Bytes) {d : Bool}
    → scan b (s ++ t) ≡ some d
    → (c : Bool) × (scan b s ≡ some c)
unfolding scan
scan-split b [] t h = (b, refl)
scan-split true (x ∷ s) t h = elim (Bool-cases (x == lf)) [
  | inl e ↦ rw e (scan-split false s t (rw e at h))
  | inr e ↦ absurd (cc (rw e at h))
]
scan-split false (x ∷ s) t h = elim (Bool-cases (x == cr)) [
  | inl e ↦ rw e (scan-split true s t (rw e at h))
  | inr e ↦ elim (Bool-cases (x == lf)) [
    | inl e' ↦ absurd (cc (rw (e, e') at h))
    | inr e' ↦ rw (e, e') (scan-split false s t (rw (e, e') at h))
  ]
]

lf_to_crlf-IsCrlf : (s : Bytes) → HasNoCr s → IsCrlf (lf_to_crlf s)
unfolding lf_to_crlf scan count_byte
lf_to_crlf-IsCrlf [] h = refl
lf_to_crlf-IsCrlf (c ∷ s) h = ground (arith, lf_to_crlf-IsCrlf s (ground arith))

cr_to_lf-HasNoCr : (s : Bytes) → HasNoCr (cr_to_lf s)
unfolding cr_to_lf count_byte
cr_to_lf-HasNoCr [] = refl
cr_to_lf-HasNoCr (c ∷ s) = ground (arith, cr_to_lf-HasNoCr s)

-- Behind a `\r` no text whose line breaks are whole begins.
first_byte :
    (x : ℕ) (s t : Bytes) {d : Bool} → IsCrlf (x ∷ s) → scan true (x ∷ (s ++ t)) ≡ some d → ⊥
unfolding scan
first_byte x s t h k = ground arith

before-IsCrlf :
    (before search behind : Bytes) (b : Bool)
    → ((n : ℕ)
        → n < length before
        → has_prefix (drop n (before ++ (search ++ behind))) search ≡ false)
    → IsCrlf search
    → scan false before ≡ some b
    → scan b (search ++ behind) ≡ some false
    → b ≡ false
unfolding has_prefix drop scan
before-IsCrlf before search behind false e h k l = refl
before-IsCrlf [] search behind true e h k l = absurd (cc k)
before-IsCrlf (x ∷ before) [] behind true e h k l = absurd (let z = e 0 (omega arith) in cc z)
before-IsCrlf (x ∷ before) (y ∷ search) behind true e h k l =
    absurd (first_byte y search behind h l)

replaced-IsCrlf :
    (source search replace after : Bytes)
    → IsFirst source search replace after
    → IsCrlf source
    → IsCrlf search
    → IsCrlf replace
    → IsCrlf after
replaced-IsCrlf source search replace after f hs hk hr =
    let whole = subst IsCrlf f.found hs in
    let (b, read) = scan-split false f.before (search ++ f.behind) whole in
    let rest = sym (scan-append false f.before (search ++ f.behind) b read) ∙ whole in
    let plain' : b ≡ false =
      before-IsCrlf f.before search f.behind b
        (subst (λ s. (n : ℕ) → n < length f.before → has_prefix (drop n s) search ≡ false) f.found
          f.none_earlier)
        hk read rest in
    subst IsCrlf (sym f.replaced) (
      scan-append false f.before (replace ++ f.behind) false (rw plain' at read)
      ∙ (scan-append false replace f.behind false hr
          ∙ (sym (scan-append false search f.behind false hk) ∙ (rw plain' at rest))))

replaced-HasNoCr :
    (source search replace after : Bytes)
    → IsFirst source search replace after
    → HasNoCr source
    → HasNoCr replace
    → HasNoCr after
replaced-HasNoCr source search replace after f hs hr =
    let whole = subst HasNoCr f.found hs in
    let a = count-append cr f.before (search ++ f.behind) in
    let b = count-append cr search f.behind in
    let c = count-append cr f.before (replace ++ f.behind) in
    let d = count-append cr replace f.behind in subst HasNoCr (sym f.replaced) (omega arith)

all_crlf-IsCrlf : (s : Bytes) → all_crlf s ≡ true → IsCrlf s
unfolding all_crlf
all_crlf-IsCrlf s h = crlf-scan false s (ground arith) (ground arith)

no_cr-all_crlf : (s : Bytes) → HasNoCr s → all_crlf s ≡ false
unfolding all_crlf
no_cr-all_crlf s h = let (a, b) = crlf_at_most false s in ground arith

-- The line breaks of a file: all `\r\n` where they were, and otherwise without a `\r`.
abbrev pub Keeps : Bytes → Bytes → Type 0
Keeps before after =
    (all_crlf before ≡ true → IsCrlf after) × (all_crlf before ≡ false → HasNoCr after)

both : {b : Bool} → b ≡ true → b ≡ false → ⊥
both t f = cc

fitted-Keeps :
    (content search replace after : Bytes)
    → HasNoCr (crlf_to_lf search)
    → HasNoCr (crlf_to_lf replace)
    → (let f = fit content search replace in IsFirst f.source f.search f.replace after)
    → Keeps content after
unfolding fit universal_newlines
fitted-Keeps content search replace after hs hr f = elim (Bool-cases (count_byte cr content == 0)) [
  | inl none' ↦
      let h : HasNoCr content = ground arith in
      let i = no_cr-all_crlf content h in
      (λ e. absurd (both e i), λ e. replaced-HasNoCr content _ _ after (rw none' at f) h hr)
  | inr some' ↦ elim (Bool-cases (all_crlf content)) [
    | inl all' ↦ (
      λ e.
          replaced-IsCrlf content _ _ after (rw (some', all') at f) (all_crlf-IsCrlf content all')
            (lf_to_crlf-IsCrlf _ hs) (lf_to_crlf-IsCrlf _ hr),
      λ e. absurd (both all' e),
    )
    | inr mixed ↦ (
      λ e. absurd (both e mixed),
      λ e.
          replaced-HasNoCr _ _ _ after (rw (some', mixed) at f)
            (cr_to_lf-HasNoCr (crlf_to_lf content)) hr,
    )
  ]
]

-- An edit whose blocks have no `\r` that stands alone keeps the line breaks of its file: where all of them
-- are `\r\n` they all are afterwards, and any other file is left without a `\r`.
pub edit_file-Keeps :
    (p : String) (e : ProposedEdit) (content after : Bytes) (mode mode' : Mode)
    → HasNoCr (crlf_to_lf (bytes e.search_block))
    → HasNoCr (crlf_to_lf (bytes e.replace_block))
    → edit_file p e (some (present content mode)) ≡ ok (present after mode')
    → Keeps content after
edit_file-Keeps p e content after mode mode' hs hr h =
    fitted-Keeps content (bytes e.search_block) (bytes e.replace_block) after hs hr
      (edit_file-IsFirst p e content after mode mode' h).1

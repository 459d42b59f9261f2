-- ===== src/Orchestrator/Files/Replacing.antt =====
-- approval.go, `derive` on an edit with a search block: where the bytes change.
use st_air_case.Prelude.{
  append-nil, ℕ, zero, suc, ◌<◌, String, ◌≡◌, refl, sym, ap, subst, inl, inr, true, false, some, [],
  ◌∷◌, ◌++◌, arith, length, Bool-cases, Result, ok, err-ok,
}
use st_air_case.Domain.{ProposedEdit}
use st_air_case.GoLibrary.Bytes.{Bytes, bytes, has_prefix, drop, contains_bytes, replace_first}
use st_air_case.Orchestrator.Files.{
  ApprovedFile, present, Mode, FileError, Fitted, fit, apply_fitted, edit_file,
}

has_prefix-drop : (s p : Bytes) → has_prefix s p ≡ true → s ≡ p ++ drop (length p) s
unfolding has_prefix drop
has_prefix-drop s [] h = refl
has_prefix-drop [] (p ∷ ps) h = cc
has_prefix-drop (c ∷ s) (p ∷ ps) h =
    let e : c ≡ p = ground arith in rw e (ap (p ∷◌) (has_prefix-drop s ps (ground arith)))

-- The first place of `p` in `s`, and what replacing it there makes of `s`.
pub record IsFirst (s p w after : Bytes) : Type 0 where
  pub before : Bytes
  pub behind : Bytes
  pub found : s ≡ before ++ (p ++ behind)
  pub replaced : after ≡ before ++ (w ++ behind)
  pub none_earlier : (n : ℕ) → n < length before → has_prefix (drop n s) p ≡ false

cons-IsFirst :
    (c : ℕ) (s p w after : Bytes)
    → has_prefix (c ∷ s) p ≡ false
    → IsFirst s p w after
    → IsFirst (c ∷ s) p w (c ∷ after)
unfolding drop
cons-IsFirst c s p w after h f = record {
  before = c ∷ f.before;
  behind = f.behind;
  found = ap (c ∷◌) f.found;
  replaced = ap (c ∷◌) f.replaced;
  none_earlier = earlier;
}
  where
    earlier : (n : ℕ) → n < suc (length f.before) → has_prefix (drop n (c ∷ s)) p ≡ false
    earlier zero l = h
    earlier (suc n) l = f.none_earlier n (omega arith)

here-IsFirst : (s p w : Bytes) → has_prefix s p ≡ true → IsFirst s p w (w ++ drop (length p) s)
here-IsFirst s p w h = record {
  before = [];
  behind = drop (length p) s;
  found = has_prefix-drop s p h;
  replaced = refl;
  none_earlier = λ n l. absurd (omega arith);
}

pub replace_first-IsFirst :
    (s p w : Bytes) → contains_bytes s p ≡ true → IsFirst s p w (replace_first s p w)
unfolding contains_bytes replace_first
replace_first-IsFirst [] [] w h = record {
  before = [];
  behind = [];
  found = refl;
  replaced = sym (append-nil w);
  none_earlier = λ n l. absurd (omega arith);
}
replace_first-IsFirst [] (p ∷ ps) w h = absurd (cc h)
replace_first-IsFirst (c ∷ s) p w h = elim (Bool-cases (has_prefix (c ∷ s) p)) [
  | inl here ↦ rw here (here-IsFirst (c ∷ s) p w here)
  | inr later ↦
      rw later (cons-IsFirst c s p w _ later (replace_first-IsFirst s p w (rw later at h)))
]

present-injective :
    {x y : Bytes} {m n : Mode}
    → ◌≡◌ {A = Result FileError ApprovedFile} (ok (present x m)) (ok (present y n))
    → (x ≡ y) × (m ≡ n)
present-injective e = ground arith

apply_fitted-IsFirst :
    (p : String) (mode mode' : Mode) (f : Fitted) (after : Bytes)
    → apply_fitted p mode f ≡ ok (present after mode')
    → (mode' ≡ mode) × IsFirst f.source f.search f.replace after
unfolding apply_fitted
apply_fitted-IsFirst p mode mode' f after h = elim (Bool-cases (contains_bytes f.source f.search)) [
  | inl found ↦
      let (a, b) = present-injective (rw found at h) in
      (
        sym b,
        subst (IsFirst f.source f.search f.replace) a
            (replace_first-IsFirst f.source f.search f.replace found),
      )
  | inr lost ↦ err-ok (rw lost at h)
]

-- An edit that is accepted replaces its search block, where it stands first in the file, by the other
-- block, with nothing before or behind it changed and the mode kept; the source and the blocks are
-- read with the line breaks of the file.
pub edit_file-IsFirst :
    (p : String) (e : ProposedEdit) (content after : Bytes) (mode mode' : Mode)
    → edit_file p e (some (present content mode)) ≡ ok (present after mode')
    → let f = fit content (bytes e.search_block) (bytes e.replace_block) in
      (mode' ≡ mode) × IsFirst f.source f.search f.replace after
unfolding edit_file
edit_file-IsFirst p e content after mode mode' h =
    apply_fitted-IsFirst p mode mode' (fit content (bytes e.search_block) (bytes e.replace_block))
      after h

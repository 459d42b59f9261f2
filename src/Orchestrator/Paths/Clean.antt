-- ===== src/Orchestrator/Paths/Clean.antt =====
-- approval.go, `cleanApprovedPath`: what a path looks like that was let through.
use st_air_case.Prelude.{
  ◌≢◌, sym, err-ok, String, Bool, true, false, ◌||◌, List, [], ◌∷◌, str_eq, any, All, ◌≡◌, refl,
  ◌⊎◌, inl, inr, arith, Bool-cases, ok,
}
use st_air_case.Glob.{split}
use st_air_case.Glob.Pieces.{has_slash, split-Slashless}
use st_air_case.Orchestrator.Paths.{
  Kind, missing, unreadable, symlink, directory, regular, BadPath, no_access, through_symlink, Walk,
  existing, new, refused, is_dot, pop, push, clean, climbs, joined, is_nil, look, last_is, onward,
  walk, walked, check_parts, clean_approved_path, starts_slash,
}

-- A component that names a file or a directory: not empty, `.` or `..`, and with no slash in it.
abbrev pub IsName : String → Type 0
IsName p =
    (str_eq p "" ≡ false) × (str_eq p "." ≡ false) × (str_eq p ".." ≡ false) × (has_slash p ≡ false)

-- Names behind some number of `..`.
abbrev Shape : List String → Type 0
Shape [] = Unit
Shape (p ∷ ps) = (IsName p × Shape ps) ⊎ All (λ q. str_eq q ".." ≡ true) (p ∷ ps)

pop-Shape : (kept : List String) → Shape kept → Shape (pop kept)
unfolding pop
pop-Shape [] s = inr (refl, tt)
pop-Shape (p ∷ ps) (inl ((e, d, n, f), s)) = rw n s
pop-Shape (p ∷ ps) (inr all') = rw all'.0 (inr (refl, (all'.0, all'.1)))

push-Shape :
    (kept : List String) (p : String) → has_slash p ≡ false → Shape kept → Shape (push kept p)
unfolding push
push-Shape kept p whole s = elim (Bool-cases (is_dot p)) [
  | inl dot ↦ rw dot s
  | inr not_dot ↦ elim (Bool-cases (str_eq p "..")) [
    | inl up ↦ rw (not_dot, up) (pop-Shape kept s)
    | inr not_up ↦ rw (not_dot, not_up) (inl ((ground arith, ground arith, not_up, whole), s))
  ]
]

clean-Shape :
    (kept ps : List String) → All (λ p. has_slash p ≡ false) ps → Shape kept → Shape (clean kept ps)
unfolding clean
clean-Shape kept [] whole s = s
clean-Shape kept (p ∷ ps) whole s =
    clean-Shape (push kept p) ps whole.1 (push-Shape kept p whole.0 s)

all_up_climbs :
    (p : String) (ps : List String)
    → All (λ q. str_eq q ".." ≡ true) (p ∷ ps)
    → climbs (p ∷ ps) ≡ true
unfolding climbs
all_up_climbs p [] h = h.0
all_up_climbs p (q ∷ qs) h = all_up_climbs q qs h.1

no_up : {P : Type 0} {b : Bool} → b ≡ true → b ≡ false → P
no_up t f = cc

Shape-IsName : (ps : List String) → Shape ps → climbs ps ≡ false → All IsName ps
unfolding climbs
Shape-IsName [] s c = tt
Shape-IsName (p ∷ []) (inl (n, s)) c = (n, tt)
Shape-IsName (p ∷ q ∷ qs) (inl (n, s)) c = (n, Shape-IsName (q ∷ qs) s c)
Shape-IsName (p ∷ ps) (inr all') c = no_up (all_up_climbs p ps all') c

module _ (equal_fold : String → String → Bool) (lstat : String → Kind) where
  -- What stands on the disk along a path: it all exists and no part is a link, or it exists so up to
  -- a part that is missing.
  pub data Leads : Walk → List String → Type 0 where
    at_root : Leads existing []
    further :
        (p : String) (ps : List String)
        → Leads existing ps
        → (lstat (joined (p ∷ ps)) ≡ directory) ⊎ (lstat (joined (p ∷ ps)) ≡ regular)
        → Leads existing (p ∷ ps)
    ends :
        (p : String) (ps : List String)
        → Leads existing ps
        → lstat (joined (p ∷ ps)) ≡ missing
        → Leads new (p ∷ ps)
    beyond : (p : String) (ps : List String) → Leads new ps → Leads new (p ∷ ps)

  -- A path that stays under the root of the repository, outside its `.git`.
  pub record IsConfined (path : String) : Type 0 where
    pub parts : List String
    pub spelled : path ≡ joined parts
    pub below_root : is_nil parts ≡ false
    pub named : All IsName parts
    pub not_git : All (λ p. equal_fold p ".git" ≡ false) parts
    pub way : Walk
    pub leads : Leads way parts

  Leads-look :
      (p : String) (ps : List String) (k : Kind)
      → lstat (joined (p ∷ ps)) ≡ k
      → Leads existing ps
      → (w : Walk) → look k ≡ w
      → ((b : BadPath) → w ≢ refused b)
      → Leads w (p ∷ ps)
  unfolding look
  Leads-look p ps missing e l w h n = rw (← h) (ends p ps l e)
  Leads-look p ps unreadable e l w h n = elim (n no_access (sym h)) [ ]
  Leads-look p ps symlink e l w h n = elim (n through_symlink (sym h)) [ ]
  Leads-look p ps directory e l w h n = rw (← h) (further p ps l (inl e))
  Leads-look p ps regular e l w h n = rw (← h) (further p ps l (inr e))

  Leads-step :
      (p : String) (ps : List String) (v w : Walk)
      → (((b : BadPath) → v ≢ refused b) → Leads v ps)
      → onward lstat v p ps ≡ w
      → ((b : BadPath) → w ≢ refused b)
      → Leads w (p ∷ ps)
  unfolding onward
  Leads-step p ps existing w l h n =
      Leads-look p ps (lstat (joined (p ∷ ps))) refl (l (λ b e. cc e)) w h n
  Leads-step p ps new w l h n = rw (← h) (beyond p ps (l (λ b e. cc e)))
  Leads-step p ps (refused b) w l h n = elim (n b (sym h)) [ ]

  walk-Leads :
      (ps : List String) → ((b : BadPath) → walk lstat ps ≢ refused b) → Leads (walk lstat ps) ps
  unfolding walk
  walk-Leads [] n = at_root
  walk-Leads (p ∷ ps) n =
      Leads-step p ps (walk lstat ps) (walk lstat (p ∷ ps)) (walk-Leads ps) refl n

  walked-ok :
      (w : Walk) (parts : List String) (path : String)
      → walked lstat w parts ≡ ok path
      → (path ≡ joined parts) × ((b : BadPath) → w ≢ refused b)
  unfolding walked last_is
  walked-ok existing parts path h = ground arith
  walked-ok new parts path h = ground arith
  walked-ok (refused b) parts path h = ground arith

  no_git :
      (ps : List String)
      → any (λ p. equal_fold p ".git") ps ≡ false
      → All (λ p. equal_fold p ".git" ≡ false) ps
  no_git [] h = tt
  no_git (p ∷ ps) h = (ground arith, no_git ps (ground arith))

  check_parts-IsConfined :
      (parts : List String) (path : String)
      → (climbs parts ≡ false → All IsName parts)
      → check_parts equal_fold lstat parts ≡ ok path
      → IsConfined path
  unfolding check_parts
  check_parts-IsConfined parts path names h = elim (Bool-cases (is_nil parts || climbs parts)) [
    | inl out ↦ err-ok (rw out at h)
    | inr inside ↦ elim (Bool-cases (any (λ p. equal_fold p ".git") parts)) [
      | inl git ↦ err-ok (rw (inside, git) at h)
      | inr free ↦
          let (spelled, through) =
            walked-ok (walk lstat parts) parts path (rw (inside, free) at h) in
          record {
            parts = parts;
            spelled = spelled;
            below_root = ground arith;
            named = names (ground arith);
            not_git = no_git parts free;
            way = walk lstat parts;
            leads = walk-Leads parts through;
          }
    ]
  ]

  pub clean_approved_path-IsConfined :
      (rel path : String) → clean_approved_path equal_fold lstat rel ≡ ok path → IsConfined path
  unfolding clean_approved_path
  clean_approved_path-IsConfined rel path h =
      elim (Bool-cases (str_eq rel "" || starts_slash rel)) [
        | inl bad ↦ err-ok (rw bad at h)
        | inr good ↦
            check_parts-IsConfined (clean [] (split rel)) path
              (Shape-IsName (clean [] (split rel))
                (clean-Shape [] (split rel) (split-Slashless rel) tt))
              (rw good at h)
      ]

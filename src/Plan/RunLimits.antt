-- ===== src/Plan/RunLimits.antt =====
-- src/internal/plan/plan.go, Limits, Tighter and Stricter: run limits, where 0 and every negative
-- number mean "no limit".
use st_air_case.Prelude.{
  ℕ, ℤ, pos, negsuc, pos_part, ltb_ℤ, eqb_ℤ, ltb, ◌==◌, ap, ◌≤◌, ◌≡◌, ◌↔◌, ◌⊎◌, not, ◌&&◌, ◌||◌,
  arith, if◌then◌else◌,
}

pub record Limits : Type 0 where
  pub checkpoint_every : ℤ
  pub max_files_changed : ℤ
  pub max_scope_violations : ℤ
  pub max_run_secs : ℤ

-- Go's built-in `max`.
max_ℤ : ℤ → ℤ → ℤ
max_ℤ a b = if ltb_ℤ a b then b else a

unfoldable pub stricter : ℤ → ℤ → ℤ
unfolding max_ℤ
stricter a b =
    let a' = max_ℤ a (pos 0) in
    let b' = max_ℤ b (pos 0) in
    if eqb_ℤ a' (pos 0) || (not (eqb_ℤ b' (pos 0)) && ltb_ℤ b' a') then b' else a'

unfoldable pub tighter : Limits → Limits → Limits
tighter l o = record {
  checkpoint_every = stricter l.checkpoint_every o.checkpoint_every;
  max_files_changed = stricter l.max_files_changed o.max_files_changed;
  max_scope_violations = stricter l.max_scope_violations o.max_scope_violations;
  max_run_secs = stricter l.max_run_secs o.max_run_secs;
}

-- A count that a limit permits; a limit that is not positive permits every count.
abbrev pub Permits : ℤ → ℕ → Type 0
Permits l n = (pos_part l ≡ 0) ⊎ (n ≤ pos_part l)

-- The stricter of two limits permits a count exactly when both of them do: no limit never beats a
-- real one, whichever side it stands on.
pub stricter-Permits : (a b : ℤ) (n : ℕ) → Permits (stricter a b) n ↔ (Permits a n × Permits b n)
unfolding stricter
stricter-Permits (pos a) (pos b) n = ground arith
stricter-Permits (pos a) (negsuc b) n = ground arith
stricter-Permits (negsuc a) (pos b) n = ground arith
stricter-Permits (negsuc a) (negsuc b) n = ground arith

-- `stricter` on numbers that are not negative.
smaller_limit : ℕ → ℕ → ℕ
smaller_limit x y = if x == 0 || (not (y == 0) && ltb y x) then y else x

stricter-smaller_limit : (a b : ℤ) → stricter a b ≡ pos (smaller_limit (pos_part a) (pos_part b))
unfolding stricter smaller_limit
stricter-smaller_limit (pos a) (pos b) = ground arith
stricter-smaller_limit (pos a) (negsuc b) = ground arith
stricter-smaller_limit (negsuc a) (pos b) = ground arith
stricter-smaller_limit (negsuc a) (negsuc b) = ground arith

smaller_limit_comm : (x y : ℕ) → smaller_limit x y ≡ smaller_limit y x
unfolding smaller_limit
smaller_limit_comm x y = ground arith

smaller_limit_assoc :
    (x y z : ℕ) → smaller_limit (smaller_limit x y) z ≡ smaller_limit x (smaller_limit y z)
unfolding smaller_limit
smaller_limit_assoc x y z = ground arith

stricter_comm : (a b : ℤ) → stricter a b ≡ stricter b a
stricter_comm a b =
    simp stricter-smaller_limit (ap pos (smaller_limit_comm (pos_part a) (pos_part b)))

stricter_assoc : (a b c : ℤ) → stricter (stricter a b) c ≡ stricter a (stricter b c)
stricter_assoc a b c =
    simp stricter-smaller_limit
      (ap pos (smaller_limit_assoc (pos_part a) (pos_part b) (pos_part c)))

-- Combining limits does not depend on their order nor on how three sets of them are grouped, so
-- the limits that a run is under do not depend on which source was read first.
pub tighter_comm_assoc :
    (l o r : Limits)
    → (tighter l o ≡ tighter o l) × (tighter (tighter l o) r ≡ tighter l (tighter o r))
unfolding tighter
tighter_comm_assoc l o r = (
  cc (
    stricter_comm l.checkpoint_every o.checkpoint_every,
    stricter_comm l.max_files_changed o.max_files_changed,
    stricter_comm l.max_scope_violations o.max_scope_violations,
    stricter_comm l.max_run_secs o.max_run_secs,
  ),
  cc (
    stricter_assoc l.checkpoint_every o.checkpoint_every r.checkpoint_every,
    stricter_assoc l.max_files_changed o.max_files_changed r.max_files_changed,
    stricter_assoc l.max_scope_violations o.max_scope_violations r.max_scope_violations,
    stricter_assoc l.max_run_secs o.max_run_secs r.max_run_secs,
  ),
)

-- ===== src/Policy/Quotas.antt =====
-- engine.go, CheckLimits and Tighter: when automatic decisions stop for the rest of a run.
-- The counters are counts of the run's proposals, kept by the caller.
use st_air_case.Prelude.{
  ℕ, ◌+◌, ◌≤◌, ℤ, pos, pos_part, ltb_ℤ, Bool, not, ◌&&◌, ◌≡◌, ◌↔◌, ◌⊎◌, arith, if◌then◌else◌,
}
use st_air_case.Plan.RunLimits.{stricter-Permits}
use st_air_case.Policy.{Limits, tighter_policy}

-- Which limit ran out, with the counter and the limit that the reason names.
pub data Exhausted : Type 0 where
  within : Exhausted
  auto_limit total_limit : ℕ → ℤ → Exhausted

-- `limit > 0 && count >= limit`
abbrev reached : ℤ → ℕ → Bool
reached l n = ltb_ℤ (pos 0) l && not (ltb_ℤ (pos n) l)

unfoldable pub check_limits : Limits → ℕ → ℕ → Exhausted
check_limits l auto_approved total_yields =
    if reached l.max_auto_approved auto_approved
    then auto_limit auto_approved l.max_auto_approved
    else if reached l.max_total_yields total_yields
    then total_limit total_yields l.max_total_yields
    else within

-- A limit leaves room for one more: it is not positive, or the count is below it.
abbrev pub HasRoom : ℤ → ℕ → Type 0
HasRoom l n = (pos_part l ≡ 0) ⊎ (n + 1 ≤ pos_part l)

-- No limit is reached exactly when both limits have room for one more, so automatic decisions stop
-- at the proposal that would pass a limit and not one later.
pub check_limits_iff :
    (l : Limits) (auto total : ℕ)
    → (check_limits l auto total ≡ within)
      ↔ (HasRoom l.max_auto_approved auto × HasRoom l.max_total_yields total)
unfolding check_limits
check_limits_iff l auto total = (λ h. ground arith, λ h. ground arith)

-- Under the combination of two sets of limits automatic decisions go on exactly while both sets let
-- them: a set of limits that is added can only tighten.
pub check_limits-tighter :
    (l o : Limits) (auto total : ℕ)
    → (check_limits (tighter_policy l o) auto total ≡ within)
      ↔ ((check_limits l auto total ≡ within) × (check_limits o auto total ≡ within))
unfolding tighter_policy
check_limits-tighter l o auto total =
    let (f, g) = check_limits_iff (tighter_policy l o) auto total in
    let (fl, gl) = check_limits_iff l auto total in
    let (fo, go') = check_limits_iff o auto total in
    let (fa, ga) = stricter-Permits l.max_auto_approved o.max_auto_approved (auto + 1) in
    let (ft, gt) = stricter-Permits l.max_total_yields o.max_total_yields (total + 1) in
    (
      λ h. let (a, t) = f h in (gl ((fa a).0, (ft t).0), go' ((fa a).1, (ft t).1)),
      λ (hl, ho). let (al, tl) = fl hl in let (ao, to) = fo ho in g (ga (al, ao), gt (tl, to)),
    )

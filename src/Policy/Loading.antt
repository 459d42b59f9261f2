-- ===== src/Policy/Loading.antt =====
-- engine.go, parseEngine: which policies are accepted once their JSON is read.
use st_air_case.Prelude.{
  ℕ, suc, pos, ltb_ℤ, String, Bool, true, false, not, ◌&&◌, ◌||◌, Option, none, some, List, [], ◌∷◌,
  ◌≡◌, refl, ◌↔◌, ◌⊎◌, inl, inr, arith, All, str_eq, Bool-cases, if◌then◌else◌,
}
use st_air_case.GoLibrary.{GoLibrary}
use st_air_case.Glob.{valid_glob}
use st_air_case.Policy.{Engine, Rule, is_nil, has_typed_condition, effect_approve, effect_reject}

-- The errors, with the number of the rule and the pattern they name.
pub data LoadError : Type 0 where
  bad_effect negative_limit blanket_deny : ℕ → LoadError
  bad_glob : ℕ → String → LoadError

module _ (go : GoLibrary) where
  open go use {Score, is_zero, path_match}

  first_bad_glob : ℕ → List String → Option LoadError
  first_bad_glob i [] = none
  first_bad_glob i (g ∷ gs) =
      if valid_glob path_match g then first_bad_glob i gs else some (bad_glob i g)

  check_rule : ℕ → Rule Score → Option LoadError
  unfolding first_bad_glob
  check_rule i r =
      if not (str_eq r.effect "")
        && (not (str_eq r.effect effect_approve) && not (str_eq r.effect effect_reject))
      then some (bad_effect i)
      else if ltb_ℤ r.max_lines (pos 0) || ltb_ℤ r.max_files (pos 0)
      then some (negative_limit i)
      else first_bad_glob i r.paths

  abbrev or_else : Option LoadError → Option LoadError → Option LoadError
  or_else none next = next
  or_else (some e) next = some e

  check_rules : ℕ → List (Rule Score) → Option LoadError
  unfolding check_rule
  check_rules i [] = none
  check_rules i (r ∷ rs) = or_else (check_rule i r) (check_rules (suc i) rs)

  -- A rule that rejects whatever it is shown.
  unfoldable pub is_blanket_deny : Rule Score → Bool
  is_blanket_deny r =
      str_eq r.effect effect_reject
      && (is_nil r.action_types
          && (is_zero r.min_confidence
              && (is_nil r.allowed_extensions
                  && (is_nil r.agent_names && not (has_typed_condition r)))))

  find_blanket_deny : ℕ → List (Rule Score) → Option LoadError
  find_blanket_deny i [] = none
  find_blanket_deny i (r ∷ rs) =
      if is_blanket_deny r then some (blanket_deny i) else find_blanket_deny (suc i) rs

  -- `none`: the engine is accepted.
  unfoldable pub check_engine : Engine Score → Option LoadError
  unfolding check_rules find_blanket_deny
  check_engine e =
      or_else (check_rules 0 e.rules)
        (if e.allow_blanket_deny then none else find_blanket_deny 0 e.rules)

  pub record IsWellFormed (r : Rule Score) : Type 0 where
    pub effect_known :
        (str_eq r.effect "" || (str_eq r.effect effect_approve || str_eq r.effect effect_reject))
        ≡ true
    pub lines_positive : ltb_ℤ r.max_lines (pos 0) ≡ false
    pub files_positive : ltb_ℤ r.max_files (pos 0) ≡ false
    pub globs_valid : All (λ g. valid_glob path_match g ≡ true) r.paths

  globs_iff :
      (i : ℕ) (gs : List String)
      → (first_bad_glob i gs ≡ none) ↔ All (λ g. valid_glob path_match g ≡ true) gs
  unfolding first_bad_glob
  globs_iff i [] = (λ h. tt, λ h. refl)
  globs_iff i (g ∷ gs) =
      let (p, q) = globs_iff i gs in
      (
        λ h. elim (Bool-cases (valid_glob path_match g)) [
          | inl fine ↦ (fine, p (rw fine at h))
          | inr bad ↦ absurd (cc (rw bad at h))
        ],
        λ h. rw (h.0) (q h.1),
      )

  rule_iff : (i : ℕ) (r : Rule Score) → (check_rule i r ≡ none) ↔ IsWellFormed r
  unfolding check_rule
  rule_iff i r = (
    λ h. record {
      effect_known = ground arith;
      lines_positive = ground arith;
      files_positive = ground arith;
      globs_valid = (globs_iff i r.paths).0 (ground arith);
    },
    λ h. ground (arith, (globs_iff i r.paths).1 h.globs_valid),
  )

  rules_iff : (i : ℕ) (rs : List (Rule Score)) → (check_rules i rs ≡ none) ↔ All IsWellFormed rs
  unfolding check_rules
  rules_iff i [] = (λ h. tt, λ h. refl)
  rules_iff i (r ∷ rs) =
      let (p, q) = rules_iff (suc i) rs in
      let (f, g) = rule_iff i r in
      (λ h. (f (ground arith), p (ground arith)), λ h. ground (arith, g h.0, q h.1))

  blanket_iff :
      (i : ℕ) (rs : List (Rule Score))
      → (find_blanket_deny i rs ≡ none) ↔ All (λ r. is_blanket_deny r ≡ false) rs
  unfolding find_blanket_deny
  blanket_iff i [] = (λ h. tt, λ h. refl)
  blanket_iff i (r ∷ rs) =
      let (p, q) = blanket_iff (suc i) rs in
      (
        λ h. elim (Bool-cases (is_blanket_deny r)) [
          | inl bad ↦ absurd (cc (rw bad at h))
          | inr fine ↦ (fine, p (rw fine at h))
        ],
        λ h. rw (h.0) (q h.1),
      )

  -- A policy is accepted exactly when every rule has a known effect or none, limits that are not
  -- negative and valid patterns, and, unless the policy allows it, no rule rejects unconditionally.
  pub check_engine_iff :
      (e : Engine Score)
      → (check_engine e ≡ none) ↔ (
          All IsWellFormed e.rules
          × ((e.allow_blanket_deny ≡ true) ⊎ All (λ r. is_blanket_deny r ≡ false) e.rules))
  unfolding check_engine
  check_engine_iff e =
      let (p, q) = rules_iff 0 e.rules in
      let (f, g) = blanket_iff 0 e.rules in
      (
        λ h. (
          p (ground arith),
          elim (Bool-cases e.allow_blanket_deny) [
            | inl allowed ↦ inl allowed
            | inr banned ↦ inr (f (ground arith))
          ],
        ),
        λ (a, b). elim b [
          | inl allowed ↦ ground (arith, q a)
          | inr none_such ↦ ground (arith, q a, g none_such)
        ],
      )

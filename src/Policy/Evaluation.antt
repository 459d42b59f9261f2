-- ===== src/Policy/Evaluation.antt =====
-- engine.go, Evaluate: the first matching rule decides, and nothing automatic decides a command.
use st_air_case.Prelude.{
  append-nil, append_assoc, All-append, length-append, ◌↔◌, ℕ, suc, ◌+◌, true, false, List, [], ◌∷◌,
  ◌++◌, ◌≡◌, refl, sym, ◌∙◌, arith, length, Bool-cases, All, inl, inr, subst,
}
use st_air_case.Domain.{YieldRequest}
use st_air_case.GoLibrary.{GoLibrary}
use st_air_case.Policy.{
  Engine, Rule, Facts, PolicyDecision, unexplained, no_matching_rule, is_human_only, rule_matches,
  undecided, decide_by, evaluate_from, evaluate,
}

module _ (go : GoLibrary) where
  open go use {Score}

  abbrev pub Passes : YieldRequest Score → Facts → Rule Score → Type 0
  Passes req facts r = rule_matches go r req facts ≡ true

  abbrev pub Fails : YieldRequest Score → Facts → Rule Score → Type 0
  Fails req facts r = rule_matches go r req facts ≡ false

  -- How a list of rules decides a request, with the decision as its index.
  pub data Chooses (e : Engine Score) (req : YieldRequest Score) (facts : Facts)
      : PolicyDecision → Type 0 where
    by_person_only :
        is_human_only req.action_type ≡ true → Chooses e req facts (undecided unexplained)
    by_none :
        is_human_only req.action_type ≡ false
        → All (Fails req facts) e.rules
        → Chooses e req facts (undecided no_matching_rule)
    by_first :
        (before : List (Rule Score)) (r : Rule Score) (after : List (Rule Score))
        → is_human_only req.action_type ≡ false
        → e.rules ≡ before ++ r ∷ after
        → All (Fails req facts) before
        → Passes req facts r
        → Chooses e req facts (decide_by (length before) r)

  from_rules :
      (i : ℕ) (rs before : List (Rule Score)) (e : Engine Score) (req : YieldRequest Score)
      (facts : Facts)
      → is_human_only req.action_type ≡ false
      → e.rules ≡ before ++ rs
      → All (Fails req facts) before
      → length before ≡ i
      → Chooses e req facts (evaluate_from go i rs req facts)
  unfolding evaluate_from
  from_rules i [] before e req facts auto eq fails l =
      Chooses.by_none auto (rw (eq ∙ append-nil before) fails)
  from_rules i (r ∷ rs) before e req facts auto eq fails l =
      elim (Bool-cases (rule_matches go r req facts)) [
        | inl hit ↦ rw (hit, ← l) (Chooses.by_first before r rs auto eq fails hit)
        | inr miss ↦ rw miss (
            from_rules (suc i) rs (before ++ r ∷ []) e req facts auto
              (eq ∙ sym (append_assoc before (r ∷ []) rs))
              (All-append (Fails req facts) before (r ∷ []) fails (miss, tt))
              (omega (arith, length-append before (r ∷ []))))
      ]

  evaluate_sound :
      (e : Engine Score) (req : YieldRequest Score) (facts : Facts)
      → Chooses e req facts (evaluate go e req facts)
  unfolding evaluate
  evaluate_sound e req facts = elim (Bool-cases (is_human_only req.action_type)) [
    | inl person ↦ rw person (Chooses.by_person_only person)
    | inr auto ↦ rw auto (from_rules 0 e.rules [] e req facts auto refl tt refl)
  ]

  All-fail :
      (i : ℕ) (rs : List (Rule Score)) (req : YieldRequest Score) (facts : Facts)
      → All (Fails req facts) rs
      → evaluate_from go i rs req facts ≡ undecided no_matching_rule
  unfolding evaluate_from
  All-fail i [] req facts h = refl
  All-fail i (r ∷ rs) req facts h = rw (h.0) (All-fail (suc i) rs req facts h.1)

  first_hit :
      (i j : ℕ) (before after : List (Rule Score)) (r : Rule Score) (req : YieldRequest Score)
      (facts : Facts)
      → All (Fails req facts) before
      → Passes req facts r
      → i + length before ≡ j
      → evaluate_from go i (before ++ r ∷ after) req facts ≡ decide_by j r
  unfolding evaluate_from
  first_hit i j [] after r req facts h hit l = let same : i ≡ j = omega arith in rw hit (rw same)
  first_hit i j (b ∷ bs) after r req facts h hit l =
      rw (h.0) (first_hit (suc i) j bs after r req facts h.1 hit (omega arith))

  evaluate_complete :
      {d : PolicyDecision} (e : Engine Score) (req : YieldRequest Score) (facts : Facts)
      → Chooses e req facts d
      → evaluate go e req facts ≡ d
  unfolding evaluate
  evaluate_complete e req facts (Chooses.by_person_only person) = rw person
  evaluate_complete e req facts (Chooses.by_none auto fails) =
      rw auto (All-fail 0 e.rules req facts fails)
  evaluate_complete e req facts (Chooses.by_first before r after auto eq fails hit) =
      rw auto (rw eq (first_hit 0 (length before) before after r req facts fails hit (omega arith)))

  -- The engine's decision is exactly the one that the list of rules makes.
  pub evaluate-Chooses :
      (e : Engine Score) (req : YieldRequest Score) (facts : Facts) (d : PolicyDecision)
      → (evaluate go e req facts ≡ d) ↔ Chooses e req facts d
  evaluate-Chooses e req facts d = (
    λ h. subst (λ x. Chooses e req facts x) h (evaluate_sound e req facts),
    evaluate_complete e req facts,
  )

  kept_from :
      (i : ℕ) (rs more : List (Rule Score)) (req : YieldRequest Score) (facts : Facts)
      → (evaluate_from go i rs req facts).matched ≡ true
      → evaluate_from go i (rs ++ more) req facts ≡ evaluate_from go i rs req facts
  unfolding evaluate_from
  kept_from i [] more req facts h = cc
  kept_from i (r ∷ rs) more req facts h = elim (Bool-cases (rule_matches go r req facts)) [
    | inl hit ↦ rw hit
    | inr miss ↦ rw miss (kept_from (suc i) rs more req facts (rw miss at h))
  ]

  -- An engine with more rules at the end decides as before whatever it decided before: a rule added
  -- last can only decide what was left to a person.
  pub evaluate-append_rules :
      (e : Engine Score) (more : List (Rule Score)) (req : YieldRequest Score) (facts : Facts)
      → (evaluate go e req facts).matched ≡ true
      → evaluate go (record e { rules = e.rules ++ more }) req facts ≡ evaluate go e req facts
  unfolding evaluate
  evaluate-append_rules e more req facts h = elim (Bool-cases (is_human_only req.action_type)) [
    | inl person ↦ rw person
    | inr auto ↦ rw auto (kept_from 0 e.rules more req facts (rw auto at h))
  ]

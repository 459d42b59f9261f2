-- ===== src/Policy/Deciding.antt =====
-- engine.go, Evaluate: what the engine decides, said by the conditions of the rules.
use Prim.Native.String.{◌++◌ as str_append}
use st_air_case.Prelude.{
  ℕ, String, Bool, true, false, ◌&&◌, ◌||◌, List, [], ◌∷◌, ◌++◌, any, All, length, str_eq,
  starts_with, ◌≡◌, refl, sym, ◌∙◌, ◌↔◌, ◌⊎◌, inl, inr, arith, Memᴰ, Bool-cases, any_sound,
  any_complete, all_iff, All-map, subst, if◌then◌else◌,
}
use st_air_case.Domain.{YieldRequest, ProposedEdit}
use st_air_case.GoLibrary.{GoLibrary, ext}
use st_air_case.Policy.{
  Engine, Rule, Facts, PolicyDecision, unexplained, no_matching_rule, auto_approved, auto_rejected,
  is_nil, is_human_only, matches_agent_name, matches_action_type, matches_confidence,
  matches_extensions, with_dot, rule_matches, decide_by, evaluate,
}
use st_air_case.Policy.Conditions.{Within, FileFits, matches_facts_iff}
use st_air_case.Policy.Evaluation.{Chooses, evaluate-Chooses}

-- The actions that only a person decides.
abbrev pub IsPersonOnly : String → Type 0
IsPersonOnly action = (str_eq action "shell_exec" ≡ true) ⊎ (str_eq action "tool_call" ≡ true)

-- A rule approves where its effect is absent or "approve".
abbrev pub Approves : {Score : Type 0} → Rule Score → Type 0
Approves r = (str_eq r.effect "" ≡ true) ⊎ (str_eq r.effect "approve" ≡ true)

nil_of : (xs : List String) → is_nil xs ≡ true → xs ≡ []
nil_of [] h = refl
nil_of (x ∷ xs) h = cc h

or_right : (a b : Bool) → b ≡ true → (a || b) ≡ true
or_right a b h = ground arith

or_either : (a b : Bool) → ((a || b) ≡ true) ↔ ((a ≡ true) ⊎ (b ≡ true))
or_either a b = (λ h. ground arith, λ h. ground arith)

not_either : (a b : Bool) → ((a || b) ≡ false) ↔ (¬ ((a ≡ true) ⊎ (b ≡ true)))
not_either a b = (λ h. ground arith, λ h. ground arith)

and_five :
    (a b c d e : Bool)
    → ((a && (b && (c && (d && e)))) ≡ true)
      ↔ ((a ≡ true) × (b ≡ true) × (c ≡ true) × (d ≡ true) × (e ≡ true))
and_five a b c d e = (λ h. ground arith, λ h. ground arith)

decide_by-Approves :
    {Score : Type 0} (i : Bool) (n : ℕ) (r : Rule Score)
    → (str_eq r.effect "" || str_eq r.effect "approve") ≡ i
    → decide_by n r ≡ record {
      matched = true;
      approved = i;
      reason = if i then auto_approved n else auto_rejected n;
    }
unfolding decide_by
decide_by-Approves true n r h = elim (Bool-cases (str_eq r.effect "")) [
  | inl absent ↦ rw absent refl
  | inr set ↦ let named : str_eq r.effect "approve" ≡ true = ground arith in rw (set, named) refl
]
decide_by-Approves false n r h =
    let set : str_eq r.effect "" ≡ false = ground arith in
    let other : str_eq r.effect "approve" ≡ false = ground arith in rw (set, other) refl

module _ (go : GoLibrary) where
  open go use {Score, is_zero, at_least, to_lower, equal_fold}

  -- A list of names that is empty or holds this one, in any case.
  abbrev pub Lists : List String → String → Type 0
  Lists ns x = (ns ≡ []) ⊎ ((n : String) × Memᴰ n ns × (equal_fold n x ≡ true))

  -- The extension of the file is a listed one, in lower case and with the dot that it may lack.
  abbrev pub HasExtension : String → ProposedEdit → Type 0
  HasExtension a e =
      ((starts_with (to_lower a) "." ≡ true) × (str_eq (to_lower a) (to_lower (ext e.file)) ≡ true))
      ⊎ ((starts_with (to_lower a) "." ≡ false)
          × (str_eq (str_append "." (to_lower a)) (to_lower (ext e.file)) ≡ true))

  -- All conditions of a rule hold of a request and of the change that it proposes.
  pub record Fits (req : YieldRequest Score) (facts : Facts) (r : Rule Score) : Type 0 where
    pub by_agent : Lists r.agent_names req.agent_name
    pub of_type : Lists r.action_types req.action_type
    pub sure :
        (is_zero r.min_confidence ≡ true) ⊎ (at_least req.confidence_score r.min_confidence ≡ true)
    pub in_extensions :
        (r.allowed_extensions ≡ [])
        ⊎ All
            (λ (e : ProposedEdit). (a : String) × Memᴰ a r.allowed_extensions × HasExtension a e)
            req.proposed_edits
    pub few_lines : Within r.max_lines facts.total_lines
    pub few_files : Within r.max_files (length facts.files)
    pub files_fit : All (FileFits go r) facts.files

  Lists-iff :
      (ns : List String) (x : String)
      → ((is_nil ns || any (λ n. equal_fold n x) ns) ≡ true) ↔ Lists ns x
  Lists-iff [] x = (λ h. inl refl, λ h. refl)
  Lists-iff (n ∷ ns) x = (
    λ h. inr (any_sound (λ n. equal_fold n x) (n ∷ ns) h),
    λ h. elim h [
      | inl e ↦ absurd (cc e)
      | inr (y, m, e) ↦ any_complete (λ n. equal_fold n x) y (n ∷ ns) m e
    ],
  )

  HasExtension-iff :
      (a : String) (e : ProposedEdit)
      → (str_eq (with_dot go a) (to_lower (ext e.file)) ≡ true) ↔ HasExtension a e
  unfolding with_dot
  HasExtension-iff a e = elim (Bool-cases (starts_with (to_lower a) ".")) [
    | inl dot ↦ rw dot (λ h. ground arith, λ h. ground arith)
    | inr none' ↦ rw none' (λ h. ground arith, λ h. ground arith)
  ]

  one_extension :
      (ls : List String) (e : ProposedEdit)
      → (any (λ a. str_eq (with_dot go a) (to_lower (ext e.file))) ls ≡ true)
        ↔ ((a : String) × Memᴰ a ls × HasExtension a e)
  one_extension ls e = (
    λ h.
        let (a, m, w) = any_sound (λ a. str_eq (with_dot go a) (to_lower (ext e.file))) ls h in
        (a, m, (HasExtension-iff a e).0 w),
    λ (a, m, w).
        any_complete (λ a. str_eq (with_dot go a) (to_lower (ext e.file))) a ls m
          ((HasExtension-iff a e).1 w),
  )

  extensions_iff :
      (r : Rule Score) (es : List ProposedEdit)
      → (matches_extensions go r es ≡ true) ↔ (
          (r.allowed_extensions ≡ [])
          ⊎ All
              (λ (e : ProposedEdit). (a : String) × Memᴰ a r.allowed_extensions × HasExtension a e)
              es)
  unfolding matches_extensions
  extensions_iff r es =
      let test = λ (e : ProposedEdit).
        any (λ a. str_eq (with_dot go a) (to_lower (ext e.file))) r.allowed_extensions in
      let (f, g) = all_iff test es in
      (
        λ h. elim (Bool-cases (is_nil r.allowed_extensions)) [
          | inl empty ↦ inl (nil_of r.allowed_extensions empty)
          | inr some' ↦
              inr
                (All-map _ _ es (λ e. (one_extension r.allowed_extensions e).0) (f (rw some' at h)))
        ],
        λ h. elim h [
          | inl empty ↦ rw empty refl
          | inr all' ↦
              or_right _ _ (g (All-map _ _ es (λ e. (one_extension r.allowed_extensions e).1) all'))
        ],
      )

  rule_matches_iff :
      (r : Rule Score) (req : YieldRequest Score) (facts : Facts)
      → (rule_matches go r req facts ≡ true) ↔ Fits req facts r
  unfolding rule_matches matches_agent_name matches_action_type matches_confidence
  rule_matches_iff r req facts =
      let (f, g) = and_five _ _ _ _ _ in
      let agent = Lists-iff r.agent_names req.agent_name in
      let type' = Lists-iff r.action_types req.action_type in
      let score =
        or_either (is_zero r.min_confidence) (at_least req.confidence_score r.min_confidence) in
      let ends = extensions_iff r req.proposed_edits in
      let change = matches_facts_iff go r facts in
      (
        λ h.
            let (a, b, c, d, e) = f h in
            let (x, y, z) = change.0 e in
            record {
              by_agent = agent.0 a;
              of_type = type'.0 b;
              sure = score.0 c;
              in_extensions = ends.0 d;
              few_lines = x;
              few_files = y;
              files_fit = z;
            },
        λ h. g (
          agent.1 h.by_agent,
          type'.1 h.of_type,
          score.1 h.sure,
          ends.1 h.in_extensions,
          change.1 (h.few_lines, h.few_files, h.files_fit),
        ),
      )

  Fails-iff :
      (r : Rule Score) (req : YieldRequest Score) (facts : Facts)
      → (rule_matches go r req facts ≡ false) ↔ (¬ Fits req facts r)
  Fails-iff r req facts = elim (Bool-cases (rule_matches go r req facts)) [
    | inl yes' ↦
        (λ h. absurd (cc (sym yes' ∙ h)), λ n. absurd (n ((rule_matches_iff r req facts).0 yes')))
    | inr no' ↦ (λ h w. absurd (cc (sym no' ∙ (rule_matches_iff r req facts).1 w)), λ n. no')
  ]

  -- How a list of rules decides a request, with the decision as its index.
  pub data Decides (e : Engine Score) (req : YieldRequest Score) (facts : Facts)
      : PolicyDecision → Type 0 where
    to_person :
        IsPersonOnly req.action_type
        → Decides e req facts (record { matched = false; approved = false; reason = unexplained })
    no_rule :
        ¬ IsPersonOnly req.action_type
        → All (λ r. ¬ Fits req facts r) e.rules
        → Decides e req facts
            (record { matched = false; approved = false; reason = no_matching_rule })
    approved_by :
        (before : List (Rule Score)) (r : Rule Score) (after : List (Rule Score))
        → ¬ IsPersonOnly req.action_type
        → e.rules ≡ before ++ r ∷ after
        → All (λ r. ¬ Fits req facts r) before
        → Fits req facts r
        → Approves r
        → Decides e req facts
            (record { matched = true; approved = true; reason = auto_approved (length before) })
    rejected_by :
        (before : List (Rule Score)) (r : Rule Score) (after : List (Rule Score))
        → ¬ IsPersonOnly req.action_type
        → e.rules ≡ before ++ r ∷ after
        → All (λ r. ¬ Fits req facts r) before
        → Fits req facts r
        → ¬ Approves r
        → Decides e req facts
            (record { matched = true; approved = false; reason = auto_rejected (length before) })

  not_person : (a : String) → (is_human_only a ≡ false) ↔ (¬ IsPersonOnly a)
  not_person a = not_either (str_eq a "shell_exec") (str_eq a "tool_call")

  sound :
      {d : PolicyDecision} (e : Engine Score) (req : YieldRequest Score) (facts : Facts)
      → Chooses go e req facts d
      → Decides e req facts d
  sound e req facts (Chooses.by_person_only person) = Decides.to_person ((or_either _ _).0 person)
  sound e req facts (Chooses.by_none auto fails) =
      Decides.no_rule ((not_person req.action_type).0 auto)
        (All-map _ _ e.rules (λ r. (Fails-iff r req facts).0) fails)
  sound e req facts (Chooses.by_first before r after auto eq fails hit) =
      let free = (not_person req.action_type).0 auto in
      let missed = All-map _ _ before (λ r. (Fails-iff r req facts).0) fails in
      let fits = (rule_matches_iff r req facts).0 hit in
      elim (Bool-cases (str_eq r.effect "" || str_eq r.effect "approve")) [
        | inl yes' ↦
            rw (decide_by-Approves true (length before) r yes')
              (Decides.approved_by before r after free eq missed fits ((or_either _ _).0 yes'))
        | inr no' ↦
            rw (decide_by-Approves false (length before) r no')
              (Decides.rejected_by before r after free eq missed fits ((not_either _ _).0 no'))
      ]

  first_chosen :
      (e : Engine Score) (req : YieldRequest Score) (facts : Facts) (before : List (Rule Score))
      (r : Rule Score) (after : List (Rule Score))
      → ¬ IsPersonOnly req.action_type
      → e.rules ≡ before ++ r ∷ after
      → All (λ r. ¬ Fits req facts r) before
      → Fits req facts r
      → Chooses go e req facts (decide_by (length before) r)
  first_chosen e req facts before r after free eq missed fits =
      Chooses.by_first before r after ((not_person req.action_type).1 free) eq
        (All-map _ _ before (λ r. (Fails-iff r req facts).1) missed)
        ((rule_matches_iff r req facts).1 fits)

  complete :
      {d : PolicyDecision} (e : Engine Score) (req : YieldRequest Score) (facts : Facts)
      → Decides e req facts d
      → Chooses go e req facts d
  complete e req facts (Decides.to_person person) =
      Chooses.by_person_only ((or_either _ _).1 person)
  complete e req facts (Decides.no_rule free missed) =
      Chooses.by_none ((not_person req.action_type).1 free)
        (All-map _ _ e.rules (λ r. (Fails-iff r req facts).1) missed)
  complete e req facts (Decides.approved_by before r after free eq missed fits yes') =
      subst (λ d. Chooses go e req facts d)
        (decide_by-Approves true (length before) r ((or_either _ _).1 yes'))
        (first_chosen e req facts before r after free eq missed fits)
  complete e req facts (Decides.rejected_by before r after free eq missed fits no') =
      subst (λ d. Chooses go e req facts d)
        (decide_by-Approves false (length before) r ((not_either _ _).1 no'))
        (first_chosen e req facts before r after free eq missed fits)

  -- The engine's decision is exactly this one: a shell command or a tool call is left to a person; without
  -- a rule whose conditions all hold nothing is decided; and otherwise the first such rule decides by its
  -- effect, where an absent effect approves, and is named by its position. The conditions are that the
  -- agent and the action are listed, the score is high enough, every edited file has a listed extension,
  -- and the size and every changed file are within the rule's limits, each of them where it is set.
  pub evaluate-Decides :
      (e : Engine Score) (req : YieldRequest Score) (facts : Facts) (d : PolicyDecision)
      → (evaluate go e req facts ≡ d) ↔ Decides e req facts d
  evaluate-Decides e req facts d =
      let (f, g) = evaluate-Chooses go e req facts d in
      (λ h. sound e req facts (f h), λ h. g (complete e req facts h))

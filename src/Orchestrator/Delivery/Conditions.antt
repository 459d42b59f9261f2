-- ===== src/Orchestrator/Delivery/Conditions.antt =====
-- delivery.go: what is true of a run whose seven conditions all hold.
use st_air_case.Prelude.{
  eqb_ℤ, String, ◌≡◌, refl, ap, subst, inl, inr, Bool, true, Option, none, some, List, [], ◌∷◌, map,
  arith, str_eq, eq_iff, length, any, All, All-mem, any_sound, Bool-cases, ℤ, pos, negsuc,
}
use st_air_case.History.Payload.{Bound, InitiatorSigned, CheckRun}
use st_air_case.History.State.{Decision}
use st_air_case.History.Queries.{approvals, parked}
use st_air_case.Orchestrator.Bars.{Bar, builtin_sensitive, matches_fold, person_bar}
use st_air_case.Orchestrator.Bars.Spared.{
  Spares, protected_bar-none, sensitive_bar-none, or_else-none,
}
use st_air_case.Orchestrator.Files.{is_after, insert_sorted, sort_texts}
use st_air_case.Orchestrator.Delivery.{
  DeliveryTerms, DeliveryCase, first_doubt, only_rules, nothing_parked, inside_bars, run_doubt,
  bytes_doubt, recorded_doubt, tree_doubt, checked_tree_doubt, delivery_refusal, is_rule,
  other_approval, path_doubt, paths_doubt, all_paths, distinct, recorded_at, digest_at, bar_doubt,
}
use st_air_case.Orchestrator.Delivery.Authorizes.{or_doubt-none, refusal-parts}

other_approval-none :
    (ds : List Decision)
    → other_approval ds ≡ none
    → All (λ (d : Decision). d.approved ≡ true → is_rule d ≡ true) ds
unfolding other_approval
other_approval-none [] h = tt
other_approval-none (d ∷ ds) h = (λ a. ground arith, other_approval-none ds (ground arith))

module _ (P : String → Type 0) where
  All-insert : (s : String) (ts : List String) → All P (insert_sorted s ts) → P s × All P ts
  unfolding insert_sorted
  All-insert s [] h = (h.0, tt)
  All-insert s (t ∷ ts) h = elim (Bool-cases (is_after s t)) [
    | inl later ↦ let k = rw later at h in let (a, b) = All-insert s ts k.1 in (a, (k.0, b))
    | inr here ↦ let k = rw here at h in (k.0, k.1)
  ]

  All-sort : (ss : List String) → All P (sort_texts ss) → All P ss
  unfolding sort_texts
  All-sort [] h = tt
  All-sort (s ∷ ss) h = let (a, b) = All-insert s (sort_texts ss) h in (a, All-sort ss b)

  All-distinct : (ps : List String) → All P (distinct ps) → All P ps
  unfolding distinct
  All-distinct [] h = tt
  All-distinct (p ∷ ps) h = elim (Bool-cases (any (λ q. str_eq q p) (distinct ps))) [
    | inr first' ↦ let (a, b) = rw first' at h in (a, All-distinct ps b)
    | inl again ↦
        let k : All P (distinct ps) = rw again at h in
        let (q, m, e) = any_sound (λ q. str_eq q p) (distinct ps) again in
        (subst P ((eq_iff q p).0 e) (All-mem P q (distinct ps) k m), All-distinct ps k)
  ]

module _ (path_match : String → String → Option Bool) (to_lower : String → String) where
  -- In the delivery scope, and nothing that only a person may change.
  abbrev pub IsDeliverable : DeliveryTerms → String → Type 0
  IsDeliverable t p =
      (matches_fold path_match to_lower t.deliver_paths p ≡ true)
      × Spares path_match to_lower t.bars.protected_paths p
      × Spares path_match to_lower builtin_sensitive p
      × Spares path_match to_lower t.bars.sensitive_paths p

  bar_doubt-none :
      (p : String) (b : Option Bar) → bar_doubt path_match to_lower p b ≡ none → b ≡ none
  bar_doubt-none p none h = refl
  bar_doubt-none p (some b) h = absurd (cc h)

  path_doubt-none :
      (t : DeliveryTerms) (p : String)
      → path_doubt path_match to_lower t p ≡ none
      → IsDeliverable t p
  unfolding path_doubt person_bar
  path_doubt-none t p h = elim (Bool-cases (matches_fold path_match to_lower t.deliver_paths p)) [
    | inr outside ↦ absurd (cc (rw outside at h))
    | inl inside ↦
        let (a, b) = or_else-none _ _ (bar_doubt-none p _ (rw inside at h)) in
        let k = protected_bar-none path_match to_lower t.bars.protected_paths (p ∷ []) a in
        let (m, n) = sensitive_bar-none path_match to_lower t.bars.sensitive_paths (p ∷ []) b in
        (inside, k.0, m.0, n.0)
  ]

  paths_doubt-none :
      (t : DeliveryTerms) (ps : List String)
      → paths_doubt path_match to_lower t ps ≡ none
      → All (IsDeliverable t) ps
  unfolding paths_doubt
  paths_doubt-none t [] h = tt
  paths_doubt-none t (p ∷ ps) h =
      let (a, b) = or_doubt-none _ _ h in (path_doubt-none t p a, paths_doubt-none t ps b)

  inside_bars-none :
      (c : DeliveryCase)
      → inside_bars path_match to_lower c ≡ none
      → All (IsDeliverable c.terms) (all_paths path_match to_lower c)
  unfolding inside_bars
  inside_bars-none c h =
      let (a, b) = or_doubt-none _ _ h in
      All-distinct _ _ (All-sort _ _ (paths_doubt-none c.terms _ b))

-- The checks that ran, each the one of the terms, ended with 0.
abbrev pub RanAll : List CheckRun → List String → Type 0
RanAll [] cs = Unit
RanAll (r ∷ rs) [] = Unit
RanAll (r ∷ rs) (c ∷ cs) = (str_eq r.check_command c ≡ true) × (r.exit_code ≡ pos 0) × RanAll rs cs

eqb_zero : (z : ℤ) → eqb_ℤ z (pos 0) ≡ true → z ≡ pos 0
eqb_zero (pos n) h = let e : n ≡ 0 = ground arith in ap pos e
eqb_zero (negsuc n) h = ground arith

run_doubt-none : (rs : List CheckRun) (cs : List String) → run_doubt rs cs ≡ none → RanAll rs cs
unfolding run_doubt
run_doubt-none [] cs h = tt
run_doubt-none (r ∷ rs) [] h = tt
run_doubt-none (r ∷ rs) (c ∷ cs) h =
    (ground arith, eqb_zero r.exit_code (ground arith), run_doubt-none rs cs (ground arith))

bytes_doubt-none :
    (ds : List Decision) (files : List (String × String)) (ps : List String)
    → bytes_doubt ds files ps ≡ none
    → All (λ p. str_eq (recorded_at ds p) (digest_at files p) ≡ true) ps
unfolding bytes_doubt
bytes_doubt-none ds files [] h = tt
bytes_doubt-none ds files (p ∷ ps) h = (ground arith, bytes_doubt-none ds files ps (ground arith))

as_many-tree :
    (c : DeliveryCase)
    → tree_doubt c ≡ none
    → length c.hist.end.check.check_runs ≡ length c.terms.check_commands
unfolding tree_doubt first_doubt
as_many-tree c h = ground arith

module _ (initiator_ok : Bound → InitiatorSigned → Bool)
    (path_match : String → String → Option Bool) (to_lower : String → String) where
  -- What delivery without a person rests on.
  pub record IsUndoubted (c : DeliveryCase) : Type 0 where
    pub by_rules : All (λ (d : Decision). d.approved ≡ true → is_rule d ≡ true) c.hist.decisions
    pub none_parked : (length (parked c.hist) ≡ 0) × (c.parked_live ≡ 0)
    pub deliverable :
        All (IsDeliverable path_match to_lower c.terms) (all_paths path_match to_lower c)
    pub ran_all : RanAll c.hist.end.check.check_runs c.terms.check_commands
    pub as_many : length c.hist.end.check.check_runs ≡ length c.terms.check_commands
    pub same_bytes :
        All
          (λ p. str_eq (recorded_at (approvals c.hist) p) (digest_at c.files p) ≡ true)
          (map (λ (f : String × String). f.0) c.files)

  -- A run that no condition holds back delivers only what rules of the policy approved, or commands and
  -- tools that were declared; nothing of it is parked; each path lies in the delivery scope and
  -- holds no check's definition and nothing sensitive; every check of the terms ran and ended with 0;
  -- and the bytes of each file are those that the chain records for its last approval.
  pub delivery_refusal-IsUndoubted :
      (c : DeliveryCase)
      → delivery_refusal initiator_ok path_match to_lower c ≡ none
      → IsUndoubted c
  unfolding only_rules nothing_parked checked_tree_doubt recorded_doubt
  delivery_refusal-IsUndoubted c h =
      let (sign, rules, parks, bars, tree, protected, initiator) =
        refusal-parts initiator_ok path_match to_lower c h in
      let (sources, r1) = or_doubt-none (other_approval c.hist.decisions) _ rules in
      let (t, r2) = or_doubt-none (tree_doubt c) _ tree in
      let (ran, r3) =
        or_doubt-none (run_doubt c.hist.end.check.check_runs c.terms.check_commands) _ r2 in
      let (recorded, b) = or_doubt-none (recorded_doubt c) _ r3 in
      record {
        by_rules = other_approval-none c.hist.decisions sources;
        none_parked = ground arith;
        deliverable = inside_bars-none path_match to_lower c bars;
        ran_all = run_doubt-none c.hist.end.check.check_runs c.terms.check_commands ran;
        as_many = as_many-tree c t;
        same_bytes = All-sort _ _ (bytes_doubt-none (approvals c.hist) c.files _ recorded);
      }

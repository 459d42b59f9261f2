-- ===== src/Drift/Runs.antt =====
-- drift.go over a whole run: what the report holds after any sequence of proposals.
use st_air_case.Prelude.{
  ℕ, suc, ◌+◌, ◌<◌, ◌≤◌, ℤ, pos_part, String, Bool, true, false, not, Option, List, [], ◌∷◌, select,
  any, length, length-append, ◌≡◌, refl, ◌≢◌, ◌∙◌, ◌⊎◌, inl, inr, arith, All, All-append,
  Bool-cases,
}
use st_air_case.Plan.RunLimits.{Limits}
use st_air_case.Drift.{
  Supervisor, check, decided, outside, in_scope, passed, is_nil, contains, add_file, add_files,
  count_decision, count_override, new_supervisor,
}

module _ (path_match : String → String → Option Bool) where
  -- One proposal of a run: a person decides it; or it is decided automatically, which the
  -- orchestrator does only where the check gave no reason for a person; or the check stops the run.
  pub data Step (s : Supervisor) : Supervisor → Type 0 where
    by_person :
        (files : List String) (approved : Bool)
        → (check path_match s files).1.halt ≡ false
        → Step s (decided path_match (check path_match s files).0 files approved true)
    automatic :
        (files : List String) (approved : Bool)
        → (check path_match s files).1.halt ≡ false
        → (check path_match s files).1.reasons ≡ []
        → Step s (decided path_match (check path_match s files).0 files approved false)

  -- The states of a run that was not stopped.
  pub data Run (scope : List String) (limits : Limits) : Supervisor → Type 0 where
    start : Run scope limits (new_supervisor scope limits)
    next : {s t : Supervisor} → Run scope limits s → Step s t → Run scope limits t

  -- What the report says, and how its numbers hang together.
  pub record IsConsistent (s : Supervisor) : Type 0 where
    pub in_are_in : All (λ f. in_scope path_match s.scope f ≡ true) s.in_scope_files
    pub out_are_out : All (λ f. in_scope path_match s.scope f ≡ false) s.out_of_scope_files
    pub counted : length s.files ≡ length s.in_scope_files + length s.out_of_scope_files
    pub all_decided : s.auto + s.human ≡ s.yields
    pub some_violate : s.violations ≤ s.yields
    pub overrides_human : s.overrides ≤ s.human
    pub overrides_violate : s.overrides ≤ s.violations
    pub out_overridden : s.overrides ≡ 0 → s.out_of_scope_files ≡ []
    pub limit_kept :
        0 < pos_part s.limits.max_scope_violations
        → s.violations ≤ pos_part s.limits.max_scope_violations

  new-IsConsistent :
      (scope : List String) (limits : Limits) → IsConsistent (new_supervisor scope limits)
  unfolding new_supervisor
  new-IsConsistent scope limits = record {
    in_are_in = tt;
    out_are_out = tt;
    counted = refl;
    all_decided = refl;
    some_violate = omega arith;
    overrides_human = omega arith;
    overrides_violate = omega arith;
    out_overridden = λ h. refl;
    limit_kept = λ h. omega arith;
  }

  -- The fields that `add_files` touches, after it ran.
  record FilesOk (s : Supervisor) : Type 0 where
    pub in_ok : All (λ f. in_scope path_match s.scope f ≡ true) s.in_scope_files
    pub out_ok : All (λ f. in_scope path_match s.scope f ≡ false) s.out_of_scope_files
    pub count_ok : length s.files ≡ length s.in_scope_files + length s.out_of_scope_files

  add_file-FilesOk : (s : Supervisor) (f : String) → FilesOk s → FilesOk (add_file path_match s f)
  unfolding add_file
  add_file-FilesOk s f ok = elim (Bool-cases (contains s.files f)) [
    | inl old ↦ rw old ok
    | inr new ↦ elim (Bool-cases (in_scope path_match s.scope f)) [
      | inl in' ↦
          rw (new, in')
            (record {
              in_ok = All-append _ s.in_scope_files (f ∷ []) ok.in_ok (in', tt);
              out_ok = ok.out_ok;
              count_ok = omega (arith, ok.count_ok, length-append s.in_scope_files (f ∷ []));
            })
      | inr out ↦
          rw (new, out)
            (record {
              in_ok = ok.in_ok;
              out_ok = All-append _ s.out_of_scope_files (f ∷ []) ok.out_ok (out, tt);
              count_ok = omega (arith, ok.count_ok, length-append s.out_of_scope_files (f ∷ []));
            })
    ]
  ]

  add_files-FilesOk :
      (s : Supervisor) (fs : List String) → FilesOk s → FilesOk (add_files path_match s fs)
  unfolding add_files
  add_files-FilesOk s [] ok = ok
  add_files-FilesOk s (f ∷ fs) ok =
      add_files-FilesOk (add_file path_match s f) fs (add_file-FilesOk s f ok)

  -- What `add_files` leaves alone.
  abbrev numbers : Supervisor → ℕ × ℕ × ℕ × ℕ × ℕ
  numbers s = (s.yields, s.violations, s.overrides, s.auto, s.human)

  abbrev SameRest : Supervisor → Supervisor → Type 0
  SameRest s t = (numbers s ≡ numbers t) × (s.scope ≡ t.scope) × (s.limits ≡ t.limits)

  add_file_rest : (s : Supervisor) (f : String) → SameRest (add_file path_match s f) s
  unfolding add_file
  add_file_rest s f = ground arith

  add_files_rest : (s : Supervisor) (fs : List String) → SameRest (add_files path_match s fs) s
  unfolding add_files
  add_files_rest s [] = (refl, refl, refl)
  add_files_rest s (f ∷ fs) =
      let (a, b, c) = add_files_rest (add_file path_match s f) fs in
      let (d, e, g) = add_file_rest s f in (a ∙ d, b ∙ e, c ∙ g)

  add_file_inside :
      (s : Supervisor) (f : String)
      → not (in_scope path_match s.scope f) ≡ false
      → (add_file path_match s f).out_of_scope_files ≡ s.out_of_scope_files
  unfolding add_file
  add_file_inside s f h = ground arith

  -- A list of files that are all in the scope adds none outside it.
  add_files_inside :
      (s : Supervisor) (fs : List String)
      → any (λ f. not (in_scope path_match s.scope f)) fs ≡ false
      → (add_files path_match s fs).out_of_scope_files ≡ s.out_of_scope_files
  unfolding add_files
  add_files_inside s [] h = refl
  add_files_inside s (f ∷ fs) h =
      let (a, b, c) = add_file_rest s f in
      add_files_inside (add_file path_match s f) fs (rw b (ground arith))
      ∙ add_file_inside s f (ground arith)

  any-select {ℓ} : {A : Type ℓ} (p : A → Bool) (xs : List A) → any p xs ≡ not (is_nil (select p xs))
  any-select p [] = refl
  any-select p (x ∷ xs) = elim (Bool-cases (p x)) [
    | inl in' ↦ rw in'
    | inr out ↦ rw out (any-select p xs)
  ]

  record NumbersOk (s : Supervisor) : Type 0 where
    pub decided_ok : s.auto + s.human ≡ s.yields
    pub violate_ok : s.violations ≤ s.yields
    pub human_ok : s.overrides ≤ s.human
    pub override_ok : s.overrides ≤ s.violations
    pub limit_ok :
        0 < pos_part s.limits.max_scope_violations
        → s.violations ≤ pos_part s.limits.max_scope_violations

  -- The state that `Decided` hands to its last loop, and what of it the loop leaves alone.
  abbrev before_files : Supervisor → List String → Bool → Supervisor
  before_files s files by_human =
      count_override path_match (count_decision path_match (check path_match s files).0 by_human)
        files

  -- The state after a check of a proposal inside the scope, and of one that reaches outside it.
  abbrev checked_inside : Supervisor → Supervisor
  checked_inside s = record s { yields = suc s.yields }

  abbrev checked_outside : Supervisor → Supervisor
  checked_outside s = record s {
    yields = suc s.yields;
    report = record (s.report) { violations = suc s.violations };
  }

  check_state_inside :
      (s : Supervisor) (files : List String)
      → is_nil (outside path_match s files) ≡ true
      → (check path_match s files).0 ≡ checked_inside s
  unfolding check
  check_state_inside s files h = rw h

  check_state_outside :
      (s : Supervisor) (files : List String)
      → is_nil (outside path_match s files) ≡ false
      → (check path_match s files).1.halt ≡ false
      → ((check path_match s files).0 ≡ checked_outside s)
        × (passed s.limits.max_scope_violations (suc s.violations) ≡ false)
        × ((check path_match s files).1.reasons ≢ [])
  unfolding check
  check_state_outside s files h goes_on = ground arith

  any_inside :
      (s : Supervisor) (files : List String) (b : Bool)
      → is_nil (outside path_match s files) ≡ b
      → any (λ f. not (in_scope path_match s.scope f)) files ≡ not b
  any_inside s files b h = rw (any-select (λ f. not (in_scope path_match s.scope f)) files) (rw h)

  before_files-inside :
      (s : Supervisor) (files : List String) (by_human : Bool)
      → is_nil (outside path_match s files) ≡ true
      → before_files s files by_human ≡ count_decision path_match (checked_inside s) by_human
  unfolding count_override count_decision
  before_files-inside s files true h =
      rw (check_state_inside s files h) (rw (any_inside s files true h))
  before_files-inside s files false h =
      rw (check_state_inside s files h) (rw (any_inside s files true h))

  -- Reaching outside the scope is decided by a person, and counts as an override.
  abbrev overridden : Supervisor → Supervisor
  overridden s = record s {
    yields = suc s.yields;
    report = record (s.report) {
      violations = suc s.violations;
      human = suc s.human;
      overrides = suc s.overrides;
    };
  }

  before_files-outside :
      (s : Supervisor) (files : List String)
      → is_nil (outside path_match s files) ≡ false
      → (check path_match s files).1.halt ≡ false
      → before_files s files true ≡ overridden s
  unfolding count_override count_decision
  before_files-outside s files h goes_on =
      rw ((check_state_outside s files h goes_on).0) (rw (any_inside s files false h))

  add_files-IsConsistent :
      (u : Supervisor) (fs : List String)
      → IsConsistent u
      → (any (λ f. not (in_scope path_match u.scope f)) fs ≡ false) ⊎ (0 < u.overrides)
      → IsConsistent (add_files path_match u fs)
  add_files-IsConsistent u fs ok why =
      let (same, scope, limits) = add_files_rest u fs in
      let files =
        add_files-FilesOk u fs
          (record { in_ok = ok.in_are_in; out_ok = ok.out_are_out; count_ok = ok.counted }) in
      record {
        in_are_in = files.in_ok;
        out_are_out = files.out_ok;
        counted = files.count_ok;
        all_decided = ground (arith, ok.all_decided);
        some_violate = ground (arith, ok.some_violate);
        overrides_human = ground (arith, ok.overrides_human);
        overrides_violate = ground (arith, ok.overrides_violate);
        out_overridden = λ h. elim why [
          | inl inside ↦ add_files_inside u fs inside ∙ ok.out_overridden (ground arith)
          | inr some' ↦ absurd (ground arith)
        ];
        limit_kept = λ h. rw limits (ground (arith, ok.limit_kept (rw limits at h)));
      }

  counted_inside :
      (s : Supervisor) (by_human : Bool)
      → IsConsistent s
      → IsConsistent (count_decision path_match (checked_inside s) by_human)
  unfolding count_decision
  counted_inside s true ok = record {
    in_are_in = ok.in_are_in;
    out_are_out = ok.out_are_out;
    counted = ok.counted;
    all_decided = omega (arith, ok.all_decided);
    some_violate = omega (arith, ok.some_violate);
    overrides_human = omega (arith, ok.overrides_human);
    overrides_violate = ok.overrides_violate;
    out_overridden = ok.out_overridden;
    limit_kept = ok.limit_kept;
  }
  counted_inside s false ok = record {
    in_are_in = ok.in_are_in;
    out_are_out = ok.out_are_out;
    counted = ok.counted;
    all_decided = omega (arith, ok.all_decided);
    some_violate = omega (arith, ok.some_violate);
    overrides_human = ok.overrides_human;
    overrides_violate = ok.overrides_violate;
    out_overridden = ok.out_overridden;
    limit_kept = ok.limit_kept;
  }

  limit_after : (l : ℤ) (n : ℕ) → passed l n ≡ false → 0 < pos_part l → n ≤ pos_part l
  limit_after l n h p = ground arith

  counted_outside :
      (s : Supervisor)
      → passed s.limits.max_scope_violations (suc s.violations) ≡ false
      → IsConsistent s
      → IsConsistent (count_decision path_match (checked_outside s) true)
  unfolding count_decision
  counted_outside s room ok = record {
    in_are_in = ok.in_are_in;
    out_are_out = ok.out_are_out;
    counted = ok.counted;
    all_decided = omega (arith, ok.all_decided);
    some_violate = omega (arith, ok.some_violate);
    overrides_human = omega (arith, ok.overrides_human);
    overrides_violate = omega (arith, ok.overrides_violate);
    out_overridden = ok.out_overridden;
    limit_kept = limit_after s.limits.max_scope_violations (suc s.violations) room;
  }

  overridden-IsConsistent :
      (s : Supervisor)
      → passed s.limits.max_scope_violations (suc s.violations) ≡ false
      → IsConsistent s
      → IsConsistent (overridden s)
  overridden-IsConsistent s room ok = record {
    in_are_in = ok.in_are_in;
    out_are_out = ok.out_are_out;
    counted = ok.counted;
    all_decided = omega (arith, ok.all_decided);
    some_violate = omega (arith, ok.some_violate);
    overrides_human = omega (arith, ok.overrides_human);
    overrides_violate = omega (arith, ok.overrides_violate);
    out_overridden = λ h. absurd (omega arith);
    limit_kept = limit_after s.limits.max_scope_violations (suc s.violations) room;
  }

  scope-count_decision :
      (s : Supervisor) (by_human : Bool) → (count_decision path_match s by_human).scope ≡ s.scope
  unfolding count_decision
  scope-count_decision s true = refl
  scope-count_decision s false = refl

  decided-inside :
      (s : Supervisor) (files : List String) (approved by_human : Bool)
      → is_nil (outside path_match s files) ≡ true
      → IsConsistent s
      → IsConsistent (decided path_match (check path_match s files).0 files approved by_human)
  unfolding decided
  decided-inside s files false by_human inside ok =
      rw (check_state_inside s files inside) (counted_inside s by_human ok)
  decided-inside s files true by_human inside ok =
      rw (before_files-inside s files by_human inside) (
        add_files-IsConsistent (count_decision path_match (checked_inside s) by_human) files
          (counted_inside s by_human ok)
          (inl (
            rw (scope-count_decision (checked_inside s) by_human)
              (any_inside s files true inside))))

  decided-outside :
      (s : Supervisor) (files : List String) (approved : Bool)
      → is_nil (outside path_match s files) ≡ false
      → (check path_match s files).1.halt ≡ false
      → IsConsistent s
      → IsConsistent (decided path_match (check path_match s files).0 files approved true)
  unfolding decided
  decided-outside s files false out goes_on ok =
      let (state, room, _) = check_state_outside s files out goes_on in
      rw state (counted_outside s room ok)
  decided-outside s files true out goes_on ok =
      let (state, room, _) = check_state_outside s files out goes_on in
      rw (before_files-outside s files out goes_on) (
        add_files-IsConsistent (overridden s) files (overridden-IsConsistent s room ok)
          (inr (omega arith)))

  Step-IsConsistent : {s t : Supervisor} → Step s t → IsConsistent s → IsConsistent t
  Step-IsConsistent {s} (by_person files approved goes_on) ok =
      elim (Bool-cases (is_nil (outside path_match s files))) [
        | inl inside ↦ decided-inside s files approved true inside ok
        | inr out ↦ decided-outside s files approved out goes_on ok
      ]
  Step-IsConsistent {s} (automatic files approved goes_on quiet) ok =
      elim (Bool-cases (is_nil (outside path_match s files))) [
        | inl inside ↦ decided-inside s files approved false inside ok
        | inr out ↦ absurd ((check_state_outside s files out goes_on).2 quiet)
      ]

  -- After any proposals of a run that was not stopped, in which automatic decisions are made only
  -- where the check asked for no person, the report is right: the files listed as in scope are in
  -- it and the others are not, together they are as many as the distinct files changed, every
  -- proposal was decided once, each out-of-scope approval was a person's and a violation, a file
  -- outside the scope was changed only if there was such an approval, and the violations are within
  -- their limit.
  pub Run-IsConsistent :
      (scope : List String) (limits : Limits) (s : Supervisor) → Run scope limits s → IsConsistent s
  Run-IsConsistent scope limits s r = go r
    where
      go : {u : Supervisor} → Run scope limits u → IsConsistent u
      go start = new-IsConsistent scope limits
      go (next r st) = Step-IsConsistent st (go r)

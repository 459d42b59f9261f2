-- ===== src/History/Reviewed.antt =====
-- history.go, `FinalReviewed`: what it takes for the final reviews of a run to count.
use st_air_case.Prelude.{
  ap, eq_iff, ℕ, ◌≤◌, String, Bool, true, false, not, ◌&&◌, ◌||◌, Option, none, some, List, [], ◌∷◌,
  ◌++◌, any, select, All, length, str_eq, ◌≡◌, refl, ◌↔◌, inl, inr, ◌∙◌, sym, arith, Memᴰ,
  Bool-cases, any_sound, any_complete, all_iff, All-map,
}
use st_air_case.History.State.{Decision, Replay, last_of}
use st_air_case.History.Grammar.{some_and}
use st_air_case.History.Queries.{
  approvals, maps_equal, lookup, index_of, weighs, reviewed_in, final_reviewed,
}

-- An approval of a file change.
pub record IsEditApproval (d : Decision) : Type 0 where
  pub approves_it : d.approved ≡ true
  pub is_edit : str_eq d.action_type "file_edit" ≡ true

-- The position of the last approval of a file change among the decisions, 0 where there is none.
pub data LastEdit (ds : List Decision) : ℕ → Type 0 where
  no_edit : All (λ d. ¬ IsEditApproval d) ds → LastEdit ds 0
  last_edit :
      (earlier : List Decision) (d : Decision) (later : List Decision)
      → ds ≡ earlier ++ d ∷ later
      → IsEditApproval d
      → All (λ d. ¬ IsEditApproval d) later
      → LastEdit ds d.decision_index

-- An approved final review at that position or behind it.
pub record IsFinalReview (after : ℕ) (d : Decision) : Type 0 where
  pub of_review : str_eq d.action_type "final_review" ≡ true
  pub accepts : d.approved ≡ true
  pub in_time : after ≤ d.decision_index

-- Two maps of the same size, where the second holds what the first does.
abbrev pub SameFiles : List (String × String) → List (String × String) → Type 0
SameFiles xs ys = (length xs ≡ length ys) × All (λ p. lookup p.0 ys ≡ some p.1) xs

abbrev is_edit_approval : Decision → Bool
is_edit_approval d = d.approved && str_eq d.action_type "file_edit"

IsEditApproval-iff : (d : Decision) → (is_edit_approval d ≡ true) ↔ IsEditApproval d
IsEditApproval-iff d = (λ h. ground arith, λ h. ground arith)

select_none :
    (ds : List Decision) → All (λ d. ¬ IsEditApproval d) ds → select is_edit_approval ds ≡ []
select_none [] h = refl
select_none (d ∷ ds) h = elim (Bool-cases (is_edit_approval d)) [
  | inl yes' ↦ elim (h.0 ((IsEditApproval-iff d).0 yes')) [ ]
  | inr no' ↦ rw no' (select_none ds h.1)
]

last-cons :
    (d : Decision) (ds : List Decision) (x : Decision)
    → last_of ds ≡ some x
    → last_of (d ∷ ds) ≡ some x
last-cons d [] x h = cc h
last-cons d (e ∷ es) x h = h

select_last :
    (earlier : List Decision) (d : Decision) (later : List Decision)
    → IsEditApproval d
    → All (λ d. ¬ IsEditApproval d) later
    → last_of (select is_edit_approval (earlier ++ d ∷ later)) ≡ some d
select_last [] d later is' none' =
    rw ((IsEditApproval-iff d).1 is') (rw (select_none later none') refl)
select_last (e ∷ es) d later is' none' =
    let rest = select_last es d later is' none' in
    elim (Bool-cases (is_edit_approval e)) [
      | inl yes' ↦ rw yes' (last-cons e (select is_edit_approval (es ++ d ∷ later)) d rest)
      | inr no' ↦ rw no' rest
    ]

LastEdit-index :
    (h : Replay) (after : ℕ) → LastEdit h.decisions after → index_of (last_of (approvals h)) ≡ after
unfolding approvals
LastEdit-index h after (no_edit n) = rw (select_none h.decisions n) refl
LastEdit-index h after (last_edit earlier d later eq is' n) =
    rw eq (rw (select_last earlier d later is' n) refl)

weighs_iff : (after : ℕ) (d : Decision) → (weighs after d ≡ true) ↔ IsFinalReview after d
weighs_iff after d = (λ h. ground arith, λ h. ground arith)

or_true : (b : Bool) → (b || true) ≡ true
or_true b = ground arith

reviewed_in_iff :
    (after : ℕ) (files : List (String × String)) (seen' : Bool) (ds : List Decision)
    → (reviewed_in after files seen' ds ≡ some true) ↔ (
        ((seen' || any (weighs after) ds) ≡ true)
        × All (λ d. (not (weighs after d) || maps_equal d.files files) ≡ true) ds)
unfolding reviewed_in
reviewed_in_iff after files seen' [] = (λ x. (ground arith, tt), λ x. ground arith)
reviewed_in_iff after files seen' (d ∷ ds) =
    let same = reviewed_in_iff after files seen' ds in
    let weighed = reviewed_in_iff after files true ds in
    elim (Bool-cases (weighs after d)) [
      | inr no' ↦ rw no' (λ x. ((same.0 x).0, (refl, (same.0 x).1)), λ x. same.1 (x.0, x.1.1))
      | inl yes' ↦ elim (Bool-cases (maps_equal d.files files)) [
        | inl eq ↦
            rw (yes', eq)
              (λ x. (or_true seen', (refl, (weighed.0 x).1)), λ x. weighed.1 (refl, x.1.1))
        | inr no' ↦ rw (yes', no') (λ x. cc x, λ x. cc x.1.0)
      ]
    ]

lookup_iff : (v : String) (o : Option String) → (some_and (λ w. str_eq v w) o ≡ true) ↔ (o ≡ some v)
lookup_iff v none = (λ h. cc h, λ h. cc h)
lookup_iff v (some w) = let (f, g) = eq_iff v w in (λ h. ap some (sym (f h)), λ h. g (cc h))

maps_equal_iff : (xs ys : List (String × String)) → (maps_equal xs ys ≡ true) ↔ SameFiles xs ys
unfolding maps_equal
maps_equal_iff xs ys =
    let holds = λ (p : String × String). some_and (λ v. str_eq p.1 v) (lookup p.0 ys) in
    let (f, g) = all_iff holds xs in
    (
      λ h. (
        ground arith,
        All-map (λ p. holds p ≡ true) (λ p. lookup p.0 ys ≡ some p.1) xs
            (λ p. (lookup_iff p.1 (lookup p.0 ys)).0) (f (ground arith)),
      ),
      λ h.
          let a = g (
            All-map (λ p. lookup p.0 ys ≡ some p.1) (λ p. holds p ≡ true) xs
              (λ p. (lookup_iff p.1 (lookup p.0 ys)).1) h.1) in
          let b = h.0 in ground arith,
    )

agrees_iff :
    (after : ℕ) (files : List (String × String)) (d : Decision)
    → ((not (weighs after d) || maps_equal d.files files) ≡ true)
      ↔ (IsFinalReview after d → SameFiles d.files files)
agrees_iff after files d = elim (Bool-cases (weighs after d)) [
  | inl yes' ↦ rw yes' (
    λ h r. (maps_equal_iff d.files files).0 h,
    λ f. (maps_equal_iff d.files files).1 (f ((weighs_iff after d).0 yes')),
  )
  | inr no' ↦ rw no' (λ h r. absurd (cc (sym no' ∙ (weighs_iff after d).1 r)), λ f. refl)
]

-- A final review counts exactly when some decision is an approved final review, no earlier than the last
-- approval of a file change, and each such decision holds a map of its files of the same size as the files
-- in question whose every entry the files hold.
pub final_reviewed_iff :
    (h : Replay) (files : List (String × String)) (after : ℕ)
    → LastEdit h.decisions after
    → (final_reviewed h files ≡ some true) ↔ (
        ((d : Decision) × Memᴰ d h.decisions × IsFinalReview after d)
        × All (λ d. IsFinalReview after d → SameFiles d.files files) h.decisions)
unfolding final_reviewed
final_reviewed_iff h files after last =
    let (f, g) = reviewed_in_iff after files false h.decisions in
    rw (LastEdit-index h after last) (
      λ e.
          let (some', all') = f e in
          let (d, m, w) = any_sound (weighs after) h.decisions some' in
          (
            (d, m, (weighs_iff after d).0 w),
            All-map _ _ h.decisions (λ d. (agrees_iff after files d).0) all',
          ),
      λ x.
          let (d, m, w) = x.0 in
          g (
            any_complete (weighs after) d h.decisions m ((weighs_iff after d).1 w),
            All-map _ _ h.decisions (λ d. (agrees_iff after files d).1) x.1,
          ),
    )

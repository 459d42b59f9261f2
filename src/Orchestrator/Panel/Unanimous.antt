-- ===== src/Orchestrator/Panel/Unanimous.antt =====
-- validator.go, `Validator.decide`: what stands behind a decision that the models make.
use st_air_case.Prelude.{
  ℕ, suc, ◌+◌, ◌≤◌, ◌<◌, String, ◌≡◌, refl, ◌∙◌, inl, inr, Bool, true, false, not, ◌||◌, Option,
  none, some, List, [], ◌∷◌, ◌++◌, map, arith, str_eq, length, All, ltb, if◌then◌else◌, Bool-cases,
}
use st_air_case.Domain.{action_file_edit}
use st_air_case.Orchestrator.Panel.{
  Note, left_open, Validator, validator_reject_limit, ModelReview, Answer, ValidatorVote,
  vote_approve, vote_reject, Poll, said, conclude, hear, vote_verdict, failed, approves, rejects,
  decided, stopped, all_in, poll, decide, vote_of,
}

-- Each model has its vote on the chain, in order, and all of them are the same.
pub record IsUnanimous (models : List String) (votes : List ValidatorVote) (verdict' : String)
    : Type 0 where
  pub one_each : map (λ (w : ValidatorVote). w.model) votes ≡ models
  pub agree : All (λ (w : ValidatorVote). w.verdict ≡ verdict') votes

append_nil_no : {P : Type 0} (xs : List String) (x : String) → xs ++ x ∷ [] ≡ [] → P
append_nil_no [] x h = cc
append_nil_no (y ∷ ys) x h = cc

-- What the votes of a finished poll are, where nobody rejected and where nobody approved.
record IsPolled (ms ayes noes : List String) (votes : List ValidatorVote)
    (ayes' noes' : List String) : Type 0 where
  pub one_vote : map (λ (w : ValidatorVote). w.model) votes ≡ ms
  pub none_against :
      noes' ≡ [] → (noes ≡ []) × All (λ (w : ValidatorVote). w.verdict ≡ vote_approve) votes
  pub none_for :
      ayes' ≡ [] → (ayes ≡ []) × All (λ (w : ValidatorVote). w.verdict ≡ vote_reject) votes

hear-IsPolled :
    (several : Bool) (m : String) (r : ModelReview) (v : ValidatorVote)
    (ms ayes noes ayes' noes' : List String)
    (next : List String → List String → List ValidatorVote × Poll)
    → v.model ≡ m
    → v.verdict ≡ vote_verdict r
    → ((a b : List String)
        → (next a b).1 ≡ all_in ayes' noes'
        → IsPolled ms a b (next a b).0 ayes' noes')
    → (hear several m r ayes noes next).1 ≡ all_in ayes' noes'
    → IsPolled (m ∷ ms) ayes noes (v ∷ (hear several m r ayes noes next).0) ayes' noes'
unfolding hear
hear-IsPolled several m (failed e) v ms ayes noes ayes' noes' next hm hv rest h = ground arith
hear-IsPolled several m (approves r) v ms ayes noes ayes' noes' next hm hv rest h =
    let x = said several m r in
    let p = rest (ayes ++ x ∷ []) noes h in
    record {
      one_vote = rw (hm, p.one_vote) refl;
      none_against = λ e. let (a, b) = p.none_against e in (a, (hv, b));
      none_for = λ e. append_nil_no ayes x (p.none_for e).0;
    }
hear-IsPolled several m (rejects r) v ms ayes noes ayes' noes' next hm hv rest h =
    let x = said several m r in
    let p = rest ayes (noes ++ x ∷ []) h in
    record {
      one_vote = rw (hm, p.one_vote) refl;
      none_against = λ e. append_nil_no noes x (p.none_against e).0;
      none_for = λ e. let (a, b) = p.none_for e in (a, (hv, b));
    }

all_in_inj : {a b c d : List String} → all_in a b ≡ all_in c d → (a ≡ c) × (b ≡ d)
all_in_inj h = ground arith

-- What a finished poll and a decision drawn from it have in common.
conclude-decided :
    (v : Validator) (p : Poll) (approved : Bool) (reasons : List String)
    → (conclude v p).1 ≡ decided approved reasons
    → (a : List String) × (b : List String) × (p ≡ all_in a b) × ((if approved then b else a) ≡ [])
unfolding conclude
conclude-decided v (stopped why) approved reasons h = ground arith
conclude-decided v (all_in [] []) true reasons h = ([], [], refl, refl)
conclude-decided v (all_in [] []) false reasons h = ground arith
conclude-decided v (all_in [] (n ∷ ns)) true reasons h = ground arith
conclude-decided v (all_in [] (n ∷ ns)) false reasons h = ([], n ∷ ns, refl, refl)
conclude-decided v (all_in (a ∷ rest) []) true reasons h = (a ∷ rest, [], refl, refl)
conclude-decided v (all_in (a ∷ rest) []) false reasons h = ground arith
conclude-decided v (all_in (a ∷ rest) (n ∷ ns)) approved reasons h = ground arith

conclude-state :
    (v : Validator) (p : Poll)
    → ((conclude v p).0.reject_run ≤ v.reject_run + 1)
      × ((reasons : List String)
          → (conclude v p).1 ≡ decided true reasons
          → (conclude v p).0.unreviewed ≡ true)
      × (v.unreviewed ≡ true → (conclude v p).0.unreviewed ≡ true)
unfolding conclude
conclude-state v (stopped why) = ground arith
conclude-state v (all_in ayes noes) = ground arith

conclude-counts :
    (v : Validator) (p : Poll)
    → ((reasons : List String)
        → (conclude v p).1 ≡ decided false reasons
        → (conclude v p).0.reject_run ≡ suc v.reject_run)
      × ((reasons : List String)
          → (conclude v p).1 ≡ decided true reasons
          → ((conclude v p).0.reject_run ≡ 0) × ((conclude v p).0.unreviewed ≡ true))
      × ((note : Note)
          → (conclude v p).1 ≡ left_open note
          → (conclude v p).0.reject_run ≤ v.reject_run)
      × ((conclude v p).0.reject_run ≤ v.reject_run + 1)
      × (v.unreviewed ≡ true → (conclude v p).0.unreviewed ≡ true)
unfolding conclude
conclude-counts v (stopped why) = ground arith
conclude-counts v (all_in ayes noes) = ground arith

module _ (sha256_hex : String → String) (ask : ℕ → String → Answer) where
  poll-IsPolled :
      (several : Bool) (n : ℕ) (ms ayes noes ayes' noes' : List String)
      → (poll sha256_hex ask several n ms ayes noes).1 ≡ all_in ayes' noes'
      → IsPolled ms ayes noes (poll sha256_hex ask several n ms ayes noes).0 ayes' noes'
  unfolding poll
  poll-IsPolled several n [] ayes noes ayes' noes' h =
      let (a, b) = all_in_inj h in
      record { one_vote = refl; none_against = λ e. (b ∙ e, tt); none_for = λ e. (a ∙ e, tt) }
  poll-IsPolled several n (m ∷ ms) ayes noes ayes' noes' h = elim (Bool-cases (ask n m).recorded) [
    | inl kept ↦ rw kept (
        hear-IsPolled several m (ask n m).review (vote_of sha256_hex ask m (ask n m)) ms ayes noes
          ayes' noes' (poll sha256_hex ask several (suc n) ms) refl refl
          (λ a b. poll-IsPolled several (suc n) ms a b ayes' noes') (rw kept at h))
    | inr lost ↦ ground arith
  ]

  votes-IsUnanimous :
      (v : Validator) (p : List ValidatorVote × Poll) (approved : Bool) (reasons : List String)
      → ((a b : List String) → p.1 ≡ all_in a b → IsPolled v.models [] [] p.0 a b)
      → (conclude v p.1).1 ≡ decided approved reasons
      → IsUnanimous v.models p.0 (if approved then vote_approve else vote_reject)
  votes-IsUnanimous v p true reasons polled h =
      let (a, b, e, none') = conclude-decided v p.1 true reasons h in
      let q = polled a b e in record { one_each = q.one_vote; agree = (q.none_against none').1 }
  votes-IsUnanimous v p false reasons polled h =
      let (a, b, e, none') = conclude-decided v p.1 false reasons h in
      let q = polled a b e in record { one_each = q.one_vote; agree = (q.none_for none').1 }

  -- A decision of the models rests on one vote of each of them, in their order, all on the chain
  -- and all alike: they approve where it approves and reject where it rejects. It decides a file edit,
  -- and a person decided or the models approved since at most one rejection.
  pub decide-IsUnanimous :
      (v : Validator) (action : String) (has_approvals : Bool) (unreadable : Option String)
      (approved : Bool) (reasons : List String)
      → (decide sha256_hex ask v action has_approvals unreadable).decision
        ≡ decided approved reasons
      → IsUnanimous v.models
          (decide sha256_hex ask v action has_approvals unreadable).votes
          (if approved then vote_approve else vote_reject)
        × (str_eq action action_file_edit ≡ true)
        × (v.reject_run < validator_reject_limit)
  unfolding decide
  decide-IsUnanimous v action has none approved reasons h =
      elim (Bool-cases (not (str_eq action action_file_edit) || not has)) [
        | inl skip ↦ ground arith
        | inr ask' ↦ elim (Bool-cases (not (ltb v.reject_run validator_reject_limit))) [
          | inl over ↦ ground arith
          | inr room ↦
              rw (ask', room)
                (
                  votes-IsUnanimous v
                      (poll sha256_hex ask (ltb 1 (length v.models)) 0 v.models [] []) approved
                      reasons (λ a b. poll-IsPolled (ltb 1 (length v.models)) 0 v.models [] [] a b)
                      (rw (ask', room) at h),
                  ground arith,
                  ground arith,
                )
        ]
      ]
  decide-IsUnanimous v action has (some e) approved reasons h = ground arith

  -- A rejection by the models is counted, an approval ends the count and marks the change as one that no
  -- person has seen, and a change that is left to a person adds nothing; so at most two rejections of the
  -- models stand in a row where at most two did, and no mark is taken away.
  pub decide-counts :
      (v : Validator) (action : String) (has_approvals : Bool) (unreadable : Option String)
      → v.reject_run ≤ validator_reject_limit
      → let r = decide sha256_hex ask v action has_approvals unreadable in
        ((reasons : List String)
          → r.decision ≡ decided false reasons
          → r.after.reject_run ≡ suc v.reject_run)
        × ((reasons : List String)
            → r.decision ≡ decided true reasons
            → (r.after.reject_run ≡ 0) × (r.after.unreviewed ≡ true))
        × ((note : Note) → r.decision ≡ left_open note → r.after.reject_run ≤ v.reject_run)
        × (r.after.reject_run ≤ validator_reject_limit)
        × (v.unreviewed ≡ true → r.after.unreviewed ≡ true)
  unfolding decide
  decide-counts v action has none bound =
      let (a, b, c, k, m) =
        conclude-counts v (poll sha256_hex ask (ltb 1 (length v.models)) 0 v.models [] []).1 in
      ground arith
  decide-counts v action has (some e) bound = ground arith

  -- Whoever the models are: what they approve is marked as seen by no person, and the mark stays.
  pub decide-marks :
      (v : Validator) (action : String) (has_approvals : Bool) (unreadable : Option String)
      → let r = decide sha256_hex ask v action has_approvals unreadable in
        ((reasons : List String) → r.decision ≡ decided true reasons → r.after.unreviewed ≡ true)
        × (v.unreviewed ≡ true → r.after.unreviewed ≡ true)
  unfolding decide
  decide-marks v action has none =
      let (a, b, c) =
        conclude-state v (poll sha256_hex ask (ltb 1 (length v.models)) 0 v.models [] []).1 in
      ground arith
  decide-marks v action has (some e) = ground arith

-- ===== src/History/Requests.antt =====
-- history.go: how a decision takes its request, and what it changes.
use st_air_case.Prelude.{
  ℕ, ◌+◌, ◌≤◌, ◌==◌, ltb_ℤ, String, Bool, true, false, Option, none, some, List, [], ◌∷◌, ◌++◌,
  str_eq, ◌≡◌, refl, arith, ◌⊎◌, inl, inr, if◌then◌else◌, Bool-cases, Option-cases, All,
}
use st_air_case.History.Payload.{Decided, Event, Entry, run_resumed, yield_request, yield_decided}
use st_air_case.History.State.{Request, Decision, Replay}
use st_air_case.History.Grammar.{replayed}
use st_air_case.History.Refusals.{panel_decision_refused}
use st_air_case.History.Replay.{on_checked, on_note, on_event}
use st_air_case.History.Replay.Launching.{on_bound, on_claimed, on_ended, on_acknowledged}
use st_air_case.History.Replay.Deciding.{on_vote, answers, take_request, use_request, on_decided}
use st_air_case.History.Replay.Delivering.{
  on_authorized, on_review, on_review_decided, on_delivered,
}

-- How many of the requests stand at position `i`.
abbrev pub count_at : ℕ → List Request → ℕ
count_at i [] = 0
count_at i (r ∷ rs) = (if r.request_index == i then 1 else 0) + count_at i rs

-- `r` is taken out of the requests at a place where the decision answers it.
pub data Splits (d : Decided) (r : Request) : List Request → List Request → Type 0 where
  here : {rs : List Request} → answers d r ≡ true → Splits d r (r ∷ rs) rs
  there :
      {q : Request} {rs rest : List Request} → Splits d r rs rest → Splits d r (q ∷ rs) (q ∷ rest)

some_pair :
    (q r : Request) (qs rest : List Request)
    → ◌≡◌ {A = Option (Request × List Request)} (some (q, qs)) (some (r, rest))
    → (q ≡ r) × (qs ≡ rest)
some_pair q r qs rest e = (cc e, cc e)

take_request-Splits :
    (d : Decided) (rs : List Request) (r : Request) (rest : List Request)
    → take_request d rs ≡ some (r, rest)
    → Splits d r rs rest
unfolding take_request
take_request-Splits d [] r rest e = cc e
take_request-Splits d (q ∷ qs) r rest e = elim (Bool-cases (answers d q)) [
  | inl yes' ↦
      let x = rw yes' at e in let (a, b) = some_pair q r qs rest x in rw (← b, ← a) (here yes')
  | inr no' ↦ elim (Option-cases (take_request d qs)) [
    | inl z ↦ cc (rw (no', z) at e)
    | inr ((p, ps), z) ↦
        let x = rw (no', z) at e in
        let (a, b) = some_pair p r (q ∷ ps) rest x in
        rw (← b, ← a) (there (take_request-Splits d qs p ps z))
  ]
]

pub Splits-answers :
    (d : Decided) (r : Request) (rs rest : List Request) → Splits d r rs rest → answers d r ≡ true
Splits-answers d r _ _ (here a) = a
Splits-answers d r _ _ (there s) = Splits-answers d r _ _ s

pub Splits-count_at :
    (i : ℕ) (d : Decided) (r : Request) (rs rest : List Request)
    → Splits d r rs rest
    → count_at i rs ≡ (if r.request_index == i then 1 else 0) + count_at i rest
Splits-count_at i d r _ _ (here a) = refl
Splits-count_at i d r _ _ (there s) = omega (arith, Splits-count_at i d r _ _ s)

pub Splits-All :
    (n : ℕ) (d : Decided) (r : Request) (rs rest : List Request)
    → Splits d r rs rest
    → All (λ r. r.request_index ≤ n) rs
    → (r.request_index ≤ n) × All (λ r. r.request_index ≤ n) rest
Splits-All n d r _ _ (here a) all' = all'
Splits-All n d r _ _ (there s) all' = let (a, b) = Splits-All n d r _ _ s all'.1 in (a, (all'.0, b))

abbrev pub is_deciding : Event → Bool
is_deciding (run_resumed p) = true
is_deciding (yield_request p) = true
is_deciding (yield_decided p) = true
is_deciding _ = false

pub on_event-decisions :
    (n : ℕ) (hash : String) (t : ℕ) (before : List Entry) (ev : Event) (h h1 : Replay)
    → on_event n hash t before ev h ≡ replayed h1
    → is_deciding ev ≡ false
    → (h1.decisions ≡ h.decisions) × (h1.last_decided ≡ h.last_decided) × (h1.pending ≡ h.pending)
unfolding on_event on_bound on_claimed on_ended on_acknowledged on_vote on_checked on_authorized
    on_review on_review_decided on_delivered on_note
on_event-decisions n hash t before ev h h1 e l = ground arith

abbrev pub made : ℕ → String → Decided → Option Request → Decision
made n hash d r = record { decided = d; decision_index = n; decision_hash = hash; request = r }

-- What an accepted decision changed.
pub record DecidedStep (n : ℕ) (hash : String) (d : Decided) (h h1 : Replay) : Type 0 where
  pub taken : Option Request
  pub rises : ltb_ℤ h.last_decided d.seq ≡ true
  pub last_is : h1.last_decided ≡ d.seq
  pub now : h1.decisions ≡ h.decisions ++ made n hash d taken ∷ []
  pub how :
      ((taken ≡ none) × (str_eq d.action_type "final_review" ≡ true) × (h1.pending ≡ h.pending))
      ⊎ ((r : Request) × (taken ≡ some r)
          × (str_eq d.action_type "final_review" ≡ false)
          × (str_eq r.request_action d.action_type ≡ true)
          × (panel_decision_refused h (made n hash d taken) ≡ none)
          × Splits d r h.pending h1.pending)

on_decided-taking :
    (n : ℕ) (hash : String) (t : ℕ) (d : Decided) (h h1 : Replay)
    → on_decided n hash t (some d) h ≡ replayed h1
    → str_eq d.action_type "final_review" ≡ false
    → use_request n hash t d h (take_request d h.pending) ≡ replayed h1
unfolding on_decided
on_decided-taking n hash t d h h1 e no' = ground arith

use_request-replayed :
    (n : ℕ) (hash : String) (t : ℕ) (d : Decided) (h h1 : Replay) (r : Request)
    (rest : List Request)
    → use_request n hash t d h (some (r, rest)) ≡ replayed h1
    → (str_eq r.request_action d.action_type ≡ true)
      × (panel_decision_refused h (made n hash d (some r)) ≡ none)
      × (h1.pending ≡ rest)
      × (h1.last_decided ≡ d.seq)
      × (h1.decisions ≡ h.decisions ++ made n hash d (some r) ∷ [])
unfolding use_request
use_request-replayed n hash t d h h1 r rest e = ground arith

on_decided-rises :
    (n : ℕ) (hash : String) (t : ℕ) (d : Decided) (h h1 : Replay)
    → on_decided n hash t (some d) h ≡ replayed h1
    → ltb_ℤ h.last_decided d.seq ≡ true
unfolding on_decided
on_decided-rises n hash t d h h1 e = ground arith

on_decided-final :
    (n : ℕ) (hash : String) (t : ℕ) (d : Decided) (h h1 : Replay)
    → on_decided n hash t (some d) h ≡ replayed h1
    → str_eq d.action_type "final_review" ≡ true
    → (h1.last_decided ≡ d.seq)
      × (h1.pending ≡ h.pending)
      × (h1.decisions ≡ h.decisions ++ made n hash d none ∷ [])
unfolding on_decided
on_decided-final n hash t d h h1 e yes' = ground arith

pub on_decided-DecidedStep :
    (n : ℕ) (hash : String) (t : ℕ) (d : Decided) (h h1 : Replay)
    → on_decided n hash t (some d) h ≡ replayed h1
    → DecidedStep n hash d h h1
unfolding use_request
on_decided-DecidedStep n hash t d h h1 e = elim (Bool-cases (str_eq d.action_type "final_review")) [
  | inl yes' ↦
      let (a, b, c) = on_decided-final n hash t d h h1 e yes' in
      record {
        taken = none;
        rises = on_decided-rises n hash t d h h1 e;
        last_is = a;
        now = c;
        how = inl (refl, yes', b);
      }
  | inr no' ↦ elim (Option-cases (take_request d h.pending)) [
    | inl z ↦ cc (rw z at (on_decided-taking n hash t d h h1 e no'))
    | inr ((r, rest), z) ↦
        let (a, w, b, c, g) =
          use_request-replayed n hash t d h h1 r rest
            (rw z at (on_decided-taking n hash t d h h1 e no')) in
        record {
          taken = some r;
          rises = on_decided-rises n hash t d h h1 e;
          last_is = c;
          now = g;
          how = inr (r, refl, no', a, w, rw b (take_request-Splits d h.pending r rest z));
        }
  ]
]

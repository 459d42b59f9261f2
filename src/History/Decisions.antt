-- ===== src/History/Decisions.antt =====
-- history.go: the requests and the decisions of an accepted chain.
use st_air_case.Prelude.{
  ℕ, suc, ◌+◌, ◌≤◌, ltb_ℤ, ltb_ℤ-irrefl, ltb_ℤ-asym, ltb_ℤ-mixed, lt→ltb, String, Bool, true, false,
  not, ◌&&◌, none, some, List, [], ◌∷◌, str_eq, length, length-append, ◌≡◌, refl, arith, subst, inl,
  inr, All, All-append, All-map, Pairwise-append,
}
use st_air_case.History.Payload.{Decided, Event, Entry, run_resumed, yield_request, yield_decided}
use st_air_case.History.State.{Decision, Replay, new_replay}
use st_air_case.History.Grammar.{replayed}
use st_air_case.History.Replay.{on_event, replay, accepted}
use st_air_case.History.Replay.Launching.{on_resumed}
use st_air_case.History.Replay.Deciding.{asked, on_request, on_decided}
use st_air_case.History.Requests.{
  count_at, Splits-answers, Splits-count_at, Splits-All, on_event-decisions, made, DecidedStep,
  on_decided-DecidedStep,
}
use st_air_case.History.Invariants.{seen, replay-keeps}
use st_air_case.History.Orderly.{
  is_answered, Precedes, used_by, used, IsOrderly, count_at-append, used-append, on_request-pending,
  on_resumed-pending, ask-IsOrderly, same-IsOrderly,
}

-- What the request of an accepted decision is, and what is left to wait.
record IsTaken (n : ℕ) (made' : Decision) (h h1 : Replay) : Type 0 where
  fits : is_answered made' ≡ true
  used_old : All (λ r. r.request_index ≤ n) (used_by made'.request)
  waits_old : All (λ r. r.request_index ≤ n) h1.pending
  moved :
      (i : ℕ) → count_at i (used_by made'.request) + count_at i h1.pending ≡ count_at i h.pending

earlier_answer :
    (final earlier kind answer : Bool)
    → final ≡ false
    → earlier ≡ true
    → kind ≡ true
    → answer ≡ true
    → (not final && earlier && kind && answer) ≡ true
earlier_answer final earlier kind answer a b c d = ground arith

DecidedStep-IsTaken :
    (n : ℕ) (hash : String) (d : Decided) (h h1 : Replay) (s : DecidedStep (suc n) hash d h h1)
    → All (λ r. r.request_index ≤ n) h.pending
    → IsTaken n (made (suc n) hash d s.taken) h h1
DecidedStep-IsTaken n hash d h h1 s old = elim s.how [
  | inl (t, final, p) ↦ rw t (record {
    fits = final;
    used_old = tt;
    waits_old = rw p old;
    moved = λ i. rw p (omega arith);
  })
  | inr (r, t, no', action, w, sp) ↦
      let (a, b) = Splits-All n d r h.pending h1.pending sp old in
      rw t (record {
        fits =
            earlier_answer (str_eq d.action_type "final_review") _ _ _ no'
              (lt→ltb r.request_index (suc n) (omega (arith, a))) action
              (Splits-answers d r h.pending h1.pending sp);
        used_old = (a, tt);
        waits_old = b;
        moved = λ i. omega (arith, Splits-count_at i d r h.pending h1.pending sp);
      })
]

decide-IsOrderly :
    (n : ℕ) (hash : String) (d : Decided) (h h1 : Replay)
    → DecidedStep (suc n) hash d h h1
    → IsOrderly n h
    → IsOrderly (suc n) h1
decide-IsOrderly n hash d h h1 s ok =
    let m = made (suc n) hash d s.taken in
    let t = DecidedStep-IsTaken n hash d h h1 s ok.asked_before in
    let later : (x : Decision) → ltb_ℤ h.last_decided x.seq ≡ false → ltb_ℤ x.seq d.seq ≡ true =
      λ x y. ltb_ℤ-mixed h.last_decided x.seq d.seq y s.rises in
    record {
      ascending = rw s.now (
          Pairwise-append Precedes h.decisions m ok.ascending
            (All-map _ _ h.decisions (λ x y. (later x y.0, omega (arith, y.1))) ok.made_before));
      made_before =
          rw (s.now, s.last_is)
            (All-append _ h.decisions _
              (All-map _ _ h.decisions
                (λ x y. (ltb_ℤ-asym x.seq d.seq (later x y.0), omega (arith, y.1))) ok.made_before)
              ((ltb_ℤ-irrefl d.seq, omega arith), tt));
      answered = rw s.now (All-append _ h.decisions _ ok.answered (t.fits, tt));
      asked_before = All-map _ _ h1.pending (λ x y. omega (arith, y)) t.waits_old;
      used_before =
          rw (s.now, used-append h.decisions m)
            (All-append _ (used h.decisions) (used_by s.taken)
              (All-map _ _ (used h.decisions) (λ x y. omega (arith, y)) ok.used_before)
              (All-map _ _ (used_by s.taken) (λ x y. omega (arith, y)) t.used_old));
      used_once = λ i.
          rw (s.now, used-append h.decisions m)
            (omega (
              arith,
              count_at-append i (used h.decisions) (used_by s.taken),
              t.moved i,
              ok.used_once i,
            ));
    }

on_event-IsOrderly :
    (n : ℕ) (hash : String) (t : ℕ) (before : List Entry) (ev : Event) (h h1 : Replay)
    → IsOrderly n h
    → on_event (suc n) hash t before ev h ≡ replayed h1
    → IsOrderly (suc n) h1
unfolding on_event on_resumed on_request on_decided
on_event-IsOrderly n hash t before (run_resumed none) h h1 ok e = ground arith
on_event-IsOrderly n hash t before (run_resumed (some r)) h h1 ok e =
    let (a, b, c) = on_resumed-pending (suc n) t (some r) h h1 e in
    same-IsOrderly n h h1 b c (rw a tt) (λ i. rw a (omega arith)) ok
on_event-IsOrderly n hash t before (yield_request none) h h1 ok e = ground arith
on_event-IsOrderly n hash t before (yield_request (some x)) h h1 ok e =
    let (a, b, c) = on_request-pending (suc n) hash t x h h1 e in
    ask-IsOrderly n h h1 (asked (suc n) hash x) refl a b c ok
on_event-IsOrderly n hash t before (yield_decided none) h h1 ok e = cc e
on_event-IsOrderly n hash t before (yield_decided (some d)) h h1 ok e =
    decide-IsOrderly n hash d h h1 (on_decided-DecidedStep (suc n) hash t d h h1 e) ok
on_event-IsOrderly n hash t before ev h h1 ok e =
    let (a, b, c) = on_event-decisions (suc n) hash t before ev h h1 e refl in
    same-IsOrderly n h h1 a b (rw c ok.asked_before) (λ i. rw c (omega arith)) ok

keep-IsOrderly :
    (n : ℕ) (h h1 : Replay)
    → h1.decisions ≡ h.decisions
    → h1.last_decided ≡ h.last_decided
    → h1.pending ≡ h.pending
    → IsOrderly n h
    → IsOrderly n h1
keep-IsOrderly n h h1 d l p ok = record {
  ascending = rw d ok.ascending;
  made_before = rw (d, l) ok.made_before;
  answered = rw d ok.answered;
  asked_before = rw p ok.asked_before;
  used_before = rw d ok.used_before;
  used_once = rw (d, p) ok.used_once;
}

-- In an accepted chain proposal numbers and positions rise from decision to decision; a final review
-- answers no request, and any other decision answers an earlier one of its kind, the one it names
-- where it names one; and no request is used up twice.
pub replay-IsOrderly :
    (es : List Entry) (h : Replay) → replay es ≡ accepted h → IsOrderly (length es) h
unfolding new_replay
replay-IsOrderly es h e =
    replay-keeps (λ es h. IsOrderly (length es) h)
      (record {
        ascending = tt;
        made_before = tt;
        answered = tt;
        asked_before = tt;
        used_before = tt;
        used_once = λ i. omega arith;
      })
      (λ before x h h1 ok t.
        subst (λ n. IsOrderly n h1) (omega (arith, length-append before (x ∷ [])))
          (on_event-IsOrderly (length before) _ _ before x.event (seen x h) h1
            (keep-IsOrderly _ h _ refl refl refl ok) t.handled))
      (λ es h d ok. keep-IsOrderly _ h _ refl refl refl ok) es h e

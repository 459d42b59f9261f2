-- ===== src/History/Panelled.antt =====
-- history.go: votes and decisions by the panel along an accepted chain.
use st_air_case.Prelude.{
  Mem-append, ℕ, suc, ltb, String, Bool, true, false, ◌&&◌, Option, none, some, List, [], ◌∷◌, ◌++◌,
  str_eq, length, ◌≡◌, refl, arith, ◌∙◌, inl, inr, All, All-append, All-map, Pairwise,
  Pairwise-append, any,
}
use st_air_case.History.Payload.{
  Bound, Decided, ValidatorVoted, Event, Entry, run_bound, validator_voted, yield_decided,
}
use st_air_case.History.State.{Decision, Vote, Replay, new_replay}
use st_air_case.History.Grammar.{replayed}
use st_air_case.History.Refusals.{vote_refused, wanted}
use st_air_case.History.Replay.{is_bound, on_checked, on_note, on_event, replay, accepted}
use st_air_case.History.Replay.Launching.{
  on_bound, on_resumed, on_claimed, on_ended, on_acknowledged,
}
use st_air_case.History.Replay.Deciding.{on_request, on_vote, on_decided}
use st_air_case.History.Replay.Delivering.{
  on_authorized, on_review, on_review_decided, on_delivered,
}
use st_air_case.History.Requests.{made, DecidedStep, on_decided-DecidedStep}
use st_air_case.History.Panel.{HasVote, RestsOnVotes, Apart, panel_decision_refused-none}
use st_air_case.History.Invariants.{seen, replay-keeps}

-- What holds of the votes and the decisions after the entries `es`.
pub record IsPanelled (es : List Entry) (h : Replay) : Type 0 where
  pub apart : Pairwise Apart h.votes
  pub rests : All (RestsOnVotes h.bound.validator_models h.votes) h.decisions
  pub none_yet : es ≡ [] → h.decisions ≡ []

any-All : (p : Vote → Bool) (vs : List Vote) → any p vs ≡ false → All (λ v. p v ≡ false) vs
any-All p [] e = tt
any-All p (v ∷ vs) e = (ground arith, any-All p vs (ground arith))

abbrev is_vote : Event → Bool
is_vote (validator_voted p) = true
is_vote _ = false

on_event-votes :
    (n : ℕ) (hash : String) (t : ℕ) (before : List Entry) (ev : Event) (h h1 : Replay)
    → on_event n hash t before ev h ≡ replayed h1
    → is_vote ev ≡ false
    → h1.votes ≡ h.votes
unfolding on_event on_bound on_resumed on_claimed on_ended on_acknowledged on_request on_decided
    on_checked on_authorized on_review on_review_decided on_delivered on_note
on_event-votes n hash t before ev h h1 e l = ground arith

on_event-bound :
    (n : ℕ) (hash : String) (t : ℕ) (before : List Entry) (ev : Event) (h h1 : Replay)
    → on_event n hash t before ev h ≡ replayed h1
    → is_bound ev ≡ false
    → h1.bound ≡ h.bound
unfolding on_event on_resumed on_claimed on_ended on_acknowledged on_request on_vote on_decided
    on_checked on_authorized on_review on_review_decided on_delivered on_note
on_event-bound n hash t before ev h h1 e l = ground arith

abbrev is_decision : Event → Bool
is_decision (yield_decided p) = true
is_decision _ = false

on_event-undecided :
    (n : ℕ) (hash : String) (t : ℕ) (before : List Entry) (ev : Event) (h h1 : Replay)
    → on_event n hash t before ev h ≡ replayed h1
    → is_decision ev ≡ false
    → h1.decisions ≡ h.decisions
unfolding on_event on_bound on_resumed on_claimed on_ended on_acknowledged on_request on_vote
    on_checked on_authorized on_review on_review_decided on_delivered on_note
on_event-undecided n hash t before ev h h1 e l = ground arith

on_vote-votes :
    (n : ℕ) (hash : String) (t : ℕ) (v : ValidatorVoted) (h h1 : Replay)
    → on_vote n hash t (some v) h ≡ replayed h1
    → (any (λ o. str_eq o.vote_request v.vote_request && str_eq o.vote_model v.vote_model) h.votes
        ≡ false)
      × (h1.votes ≡ h.votes ++ record { voted = v; vote_index = n; vote_hash = hash } ∷ [])
unfolding on_vote vote_refused
on_vote-votes n hash t v h h1 e = ground arith

on_bound-first :
    (n t : ℕ) (p : Option Bound) (h h1 : Replay) → on_bound n t p h ≡ replayed h1 → ltb 1 n ≡ false
unfolding on_bound
on_bound-first n t p h h1 e = ground arith

HasVote-append :
    (votes more : List Vote) (entry want m : String)
    → HasVote votes entry want m
    → HasVote (votes ++ more) entry want m
HasVote-append votes more entry want m v = record {
  ballot = v.ballot;
  was_cast = Mem-append v.ballot votes more v.was_cast;
  by_model = v.by_model;
  for_request = v.for_request;
  agrees = v.agrees;
}

RestsOnVotes-append :
    (models : List String) (votes more : List Vote) (d : Decision)
    → RestsOnVotes models votes d
    → RestsOnVotes models (votes ++ more) d
RestsOnVotes-append models votes more d r a b =
    All-map _ _ models (λ m. HasVote-append votes more d.request_entry (wanted d.approved) m)
      (r a b)

DecidedStep-RestsOnVotes :
    (n : ℕ) (hash : String) (d : Decided) (h h1 : Replay) (s : DecidedStep n hash d h h1)
    → RestsOnVotes h.bound.validator_models h.votes (made n hash d s.taken)
DecidedStep-RestsOnVotes n hash d h h1 s = elim s.how [
  | inl (t, final, p) ↦ λ a b. cc (rw t at a)
  | inr (r, t, no', action, w, sp) ↦ panel_decision_refused-none h (made n hash d s.taken) w
]

snoc_not_nil {ℓ} : {P : Type ℓ} (xs : List Entry) (x : Entry) → xs ++ x ∷ [] ≡ [] → P
snoc_not_nil [] x e = cc e
snoc_not_nil (y ∷ ys) x e = cc e

first_is_empty : (xs : List Entry) → ltb 1 (suc (length xs)) ≡ false → xs ≡ []
first_is_empty [] e = refl
first_is_empty (x ∷ xs) e = ground arith

same-IsPanelled :
    (before : List Entry) (e : Entry) (h h1 : Replay)
    → h1.votes ≡ h.votes
    → h1.bound ≡ h.bound
    → h1.decisions ≡ h.decisions
    → IsPanelled before h
    → IsPanelled (before ++ e ∷ []) h1
same-IsPanelled before e h h1 v b d ok = record {
  apart = rw v ok.apart;
  rests = rw (v, b, d) ok.rests;
  none_yet = λ z. snoc_not_nil before e z;
}

IsPanelled-event :
    (before : List Entry) (e : Entry) (ev : Event) (h h1 : Replay)
    → on_event (suc (length before)) e.event_hash e.timestamp before ev h ≡ replayed h1
    → IsPanelled before h
    → IsPanelled (before ++ e ∷ []) h1
unfolding on_event on_vote on_decided
IsPanelled-event before e (run_bound p) h h1 s ok =
    let first = on_bound-first (suc (length before)) e.timestamp p h h1 s in
    let d =
      on_event-undecided (suc (length before)) e.event_hash e.timestamp before (run_bound p) h h1 s
        refl in
    record {
      apart =
          rw
            (on_event-votes (suc (length before)) e.event_hash e.timestamp before (run_bound p) h h1
              s refl)
            ok.apart;
      rests = rw (d ∙ ok.none_yet (first_is_empty before first)) tt;
      none_yet = λ z. snoc_not_nil before e z;
    }
IsPanelled-event before e (validator_voted none) h h1 s ok = cc s
IsPanelled-event before e (validator_voted (some v)) h h1 s ok =
    let (new, now) = on_vote-votes (suc (length before)) e.event_hash e.timestamp v h h1 s in
    let b =
      on_event-bound (suc (length before)) e.event_hash e.timestamp before
        (validator_voted (some v)) h h1 s refl in
    let d =
      on_event-undecided (suc (length before)) e.event_hash e.timestamp before
        (validator_voted (some v)) h h1 s refl in
    record {
      apart = rw now (Pairwise-append Apart h.votes _ ok.apart (any-All _ h.votes new));
      rests =
          rw (now, b, d)
            (All-map _ _ h.decisions (λ x. RestsOnVotes-append h.bound.validator_models h.votes _ x)
              ok.rests);
      none_yet = λ z. snoc_not_nil before e z;
    }
IsPanelled-event before e (yield_decided none) h h1 s ok = cc s
IsPanelled-event before e (yield_decided (some d)) h h1 s ok =
    let t = on_decided-DecidedStep (suc (length before)) e.event_hash e.timestamp d h h1 s in
    let v =
      on_event-votes (suc (length before)) e.event_hash e.timestamp before (yield_decided (some d))
        h h1 s refl in
    let b =
      on_event-bound (suc (length before)) e.event_hash e.timestamp before (yield_decided (some d))
        h h1 s refl in
    record {
      apart = rw v ok.apart;
      rests =
          rw (v, b, t.now)
            (All-append _ h.decisions _ ok.rests
              (DecidedStep-RestsOnVotes (suc (length before)) e.event_hash d h h1 t, tt));
      none_yet = λ z. snoc_not_nil before e z;
    }
IsPanelled-event before e ev h h1 s ok =
    same-IsPanelled before e h h1
      (on_event-votes (suc (length before)) e.event_hash e.timestamp before ev h h1 s refl)
      (on_event-bound (suc (length before)) e.event_hash e.timestamp before ev h h1 s refl)
      (on_event-undecided (suc (length before)) e.event_hash e.timestamp before ev h h1 s refl) ok

-- The invariant reads these parts alone.
IsPanelled-kept :
    (es : List Entry) (h h1 : Replay)
    → h1.votes ≡ h.votes
    → h1.bound ≡ h.bound
    → h1.decisions ≡ h.decisions
    → IsPanelled es h
    → IsPanelled es h1
IsPanelled-kept es h h1 v b d ok = record {
  apart = rw v ok.apart;
  rests = rw (v, b, d) ok.rests;
  none_yet = rw d ok.none_yet;
}

-- In an accepted chain no model votes twice on one request, and a decision by the panel of a run that
-- declared one, on a request, has a vote on it of every model of the panel that agrees with it.
pub replay-IsPanelled : (es : List Entry) (h : Replay) → replay es ≡ accepted h → IsPanelled es h
unfolding new_replay
replay-IsPanelled es h e =
    replay-keeps IsPanelled (record { apart = tt; rests = tt; none_yet = λ z. refl })
      (λ before x h h1 ok t.
        IsPanelled-event before x x.event (seen x h) h1 t.handled
          (IsPanelled-kept before h _ refl refl refl ok))
      (λ es h d ok. IsPanelled-kept es h _ refl refl refl ok) es h e

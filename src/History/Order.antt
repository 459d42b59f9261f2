-- ===== src/History/Order.antt =====
-- history.go, `replay`: how the verdict on a chain hangs together with that on its beginning.
use st_air_case.Prelude.{
  ℕ, ◌<◌, Bool, true, false, not, List, [], ◌∷◌, ◌++◌, ◌≡◌, refl, arith, String, inl, inr, All,
  All-append, append-nil, append_assoc,
}
use st_air_case.History.Payload.{Event, Entry, run_bound}
use st_air_case.History.State.{Replay, is_set}
use st_air_case.History.Grammar.{Result-cases, replayed}
use st_air_case.History.Replay.{
  is_bound, on_checked, on_note, on_event, step, Outcome, replay_from, replay, refused, accepted,
}
use st_air_case.History.Replay.Launching.{
  on_bound, on_resumed, on_claimed, on_ended, on_acknowledged,
}
use st_air_case.History.Replay.Deciding.{on_request, on_vote, on_decided}
use st_air_case.History.Replay.Delivering.{
  on_authorized, on_review, on_review_decided, on_delivered,
}
use st_air_case.History.Invariants.{seen, Turn, replay-keeps}

-- Reading on from what was accepted.
abbrev pub read_on : List Entry → List Entry → Outcome → Outcome
read_on before es (refused n r) = refused n r
read_on before es (accepted h) = replay_from before es h

replay_from-append :
    (before xs ys : List Entry) (h : Replay)
    → replay_from before (xs ++ ys) h ≡ read_on (before ++ xs) ys (replay_from before xs h)
unfolding replay_from
replay_from-append before [] ys h = rw (append-nil before) refl
replay_from-append before (x ∷ xs) ys h = elim (Result-cases (step before x h)) [
  | inl (w, s) ↦ rw s refl
  | inr (h1, s) ↦
      rw (s, ← append_assoc before (x ∷ []) xs) (replay_from-append (before ++ x ∷ []) xs ys h1)
]

-- Chains that bind the run with their first entry and never again.
abbrev pub BindsOnce : List Entry → Type 0
BindsOnce [] = Unit
BindsOnce (e ∷ es) = (is_bound e.event ≡ true) × All (λ x. is_bound x.event ≡ false) es

on_bound-position :
    (n : ℕ) (hash : String) (t : ℕ) (before : List Entry) (ev : Event) (h h1 : Replay)
    → on_event n hash t before ev h ≡ replayed h1
    → 1 < n
    → is_bound ev ≡ false
unfolding on_event on_bound
on_bound-position n hash t before (run_bound p) h h1 e l = ground arith
on_bound-position n hash t before ev h h1 e l = refl

first_is_bound : (b : Bool) → not b ≡ false → b ≡ true
first_is_bound b e = ground arith

BindsOnce-Turn :
    (before : List Entry) (e : Entry) (h h1 : Replay)
    → BindsOnce before
    → Turn before e h h1
    → BindsOnce (before ++ e ∷ [])
BindsOnce-Turn [] e h h1 b t = (first_is_bound _ t.starts, tt)
BindsOnce-Turn (x ∷ xs) e h h1 b t = (
  b.0,
  All-append _ xs (e ∷ []) b.1
      (on_bound-position _ _ _ (x ∷ xs) e.event (seen e h) h1 t.handled (omega arith), tt),
)

-- An accepted chain binds the run to a commit with its first entry, and with no other.
pub replay-BindsOnce : (es : List Entry) (h : Replay) → replay es ≡ accepted h → BindsOnce es
replay-BindsOnce es h e =
    replay-keeps (λ es h. BindsOnce es) tt BindsOnce-Turn (λ es h d b. b) es h e

on_event-ended :
    (n : ℕ) (hash : String) (t : ℕ) (before : List Entry) (ev : Event) (h h1 : Replay)
    → is_set h.run_ended ≡ true
    → on_event n hash t before ev h ≡ replayed h1
    → (h1.decisions ≡ h.decisions)
      × (h1.votes ≡ h.votes)
      × (h1.launches ≡ h.launches)
      × (h1.segment ≡ h.segment)
      × (h1.run_ended ≡ h.run_ended)
unfolding on_event on_bound on_resumed on_claimed on_ended on_acknowledged on_request on_vote
    on_decided on_checked on_authorized on_review on_review_decided on_delivered on_note
on_event-ended n hash t before ev h h1 a e = ground arith

-- After an entry that ended the run an accepted entry decides, votes, launches, resumes and
-- acknowledges nothing, and the run stays ended.
pub ended-stays :
    (before : List Entry) (x : Entry) (h h1 : Replay)
    → is_set h.run_ended ≡ true
    → Turn before x h h1
    → (h1.decisions ≡ h.decisions)
      × (h1.votes ≡ h.votes)
      × (h1.launches ≡ h.launches)
      × (h1.segment ≡ h.segment)
      × (h1.run_ended ≡ h.run_ended)
ended-stays before x h h1 a t = on_event-ended _ _ _ before x.event (seen x h) h1 a t.handled

-- ===== src/History/Delivered.antt =====
-- outcome.go and history.go: what it takes for a run to stand as delivered, and for its final review
-- to count.
use st_air_case.Prelude.{
  ℕ, String, Bool, true, false, Option, none, some, List, [], ◌∷◌, ◌++◌, ◌≡◌, refl, ◌⊎◌, inl, inr,
  ◌∙◌, sym, arith, Memᴰ, Mem-append, Mem-last, Bool-cases,
}
use st_air_case.History.Payload.{
  Ended, Event, Entry, evidence_failed, certificate_failed, certificate_issued, run_recovered,
  review_delivered,
}
use st_air_case.History.State.{Review, Replay, new_replay, is_set}
use st_air_case.History.Grammar.{replayed}
use st_air_case.History.Replay.{on_checked, on_note, on_event, replay, accepted}
use st_air_case.History.Replay.Launching.{
  on_bound, on_resumed, on_claimed, on_ended, on_acknowledged,
}
use st_air_case.History.Replay.Deciding.{on_request, on_vote, on_decided}
use st_air_case.History.Replay.Delivering.{
  on_authorized, on_review, on_review_decided, on_delivered,
}
use st_air_case.History.Standing.{
  Standing, Because, lost_launch, delivered_standing, review_standing, ended_standing,
  current_review, after_ended, after_lost, after_review, outcome_of, delivered_run,
  delivered_incomplete,
}
use st_air_case.History.Invariants.{seen, Turn, replay-keeps}

-- The commit of an event that is written after the branch moved.
abbrev pub delivered_commit : Event → Option String
delivered_commit (certificate_issued (some p)) = some p.commit
delivered_commit (run_recovered (some p)) = some p.commit
delivered_commit (review_delivered (some p)) = some p.commit
delivered_commit (evidence_failed (some p)) = some p.failed_commit
delivered_commit (certificate_failed (some c)) = some c
delivered_commit _ = none

-- The commit that a history calls delivered is named by such an entry of the chain.
abbrev pub IsNamedIn : List Entry → String → Type 0
IsNamedIn es c = (x : Entry) × Memᴰ x es × (delivered_commit x.event ≡ some c)

abbrev Names : List Entry → Replay → Type 0
Names es h = (is_set h.end.commit ≡ false) ⊎ IsNamedIn es h.end.commit

on_event-commit :
    (n : ℕ) (hash : String) (t : ℕ) (before : List Entry) (ev : Event) (h h1 : Replay)
    → on_event n hash t before ev h ≡ replayed h1
    → (h1.end.commit ≡ h.end.commit) ⊎ (delivered_commit ev ≡ some h1.end.commit)
unfolding on_event on_bound on_resumed on_claimed on_ended on_acknowledged on_request on_vote
    on_decided on_checked on_authorized on_review on_review_decided on_delivered on_note
on_event-commit n hash t before ev h h1 e = ground arith

Names-Turn :
    (before : List Entry) (e : Entry) (h h1 : Replay)
    → Names before h
    → Turn before e h h1
    → Names (before ++ e ∷ []) h1
Names-Turn before e h h1 ok t =
    elim (on_event-commit _ _ _ before e.event (seen e h) h1 t.handled) [
      | inl same ↦ elim ok [
        | inl z ↦ inl (rw same z)
        | inr (x, m, c) ↦ inr (rw same (x, Mem-append x before (e ∷ []) m, c))
      ]
      | inr new ↦ inr (e, Mem-last e before, new)
    ]

abbrev pub is_delivered : Standing → Bool
is_delivered delivered_run = true
is_delivered delivered_incomplete = true
is_delivered _ = false

review_standing-is_delivered : (r : Review) → is_delivered (review_standing r).0 ≡ false
review_standing-is_delivered r = ground arith

ended_standing-is_delivered :
    (s : String) (h : Replay) → is_delivered (ended_standing s h).0 ≡ false
ended_standing-is_delivered s h = ground arith

after_ended-is_delivered :
    (h : Replay) (o : Option Ended) → is_delivered (after_ended h o).0 ≡ false
after_ended-is_delivered h none = refl
after_ended-is_delivered h (some e) = ground (arith, ended_standing-is_delivered e.status h)

after_lost-is_delivered :
    (h : Replay) (o : Option Because) → is_delivered (after_lost h o).0 ≡ false
after_lost-is_delivered h none = after_ended-is_delivered h h.end.segment_ended
after_lost-is_delivered h (some why) = refl

after_review-is_delivered :
    (h : Replay) (o : Option Review) → is_delivered (after_review h o).0 ≡ false
after_review-is_delivered h none = after_lost-is_delivered h (lost_launch h)
after_review-is_delivered h (some r) = review_standing-is_delivered r

delivered_standing-is_delivered : (h : Replay) → is_delivered (delivered_standing h).0 ≡ true
delivered_standing-is_delivered h = ground arith

outcome_of-is_delivered : (h : Replay) → is_delivered (outcome_of h).0 ≡ is_set h.end.commit
unfolding outcome_of
outcome_of-is_delivered h = elim (Bool-cases (is_set h.end.commit)) [
  | inl yes' ↦ rw yes' (delivered_standing-is_delivered h)
  | inr no' ↦ rw no' (after_review-is_delivered h (current_review h.end.seg_start h.review))
]

named_of :
    (es : List Entry) (h : Replay)
    → Names es h
    → is_set h.end.commit ≡ true
    → IsNamedIn es h.end.commit
named_of es h (inl z) s = cc (sym z ∙ s)
named_of es h (inr n) s = n

-- A run stands as delivered only where its chain holds an entry, written after the branch moved, that
-- names the commit.
pub outcome_of-IsNamedIn :
    (es : List Entry) (h : Replay)
    → replay es ≡ accepted h
    → is_delivered (outcome_of h).0 ≡ true
    → IsNamedIn es h.end.commit
unfolding new_replay
outcome_of-IsNamedIn es h e d =
    named_of es h (replay-keeps Names (inl refl) Names-Turn (λ es h d ok. ok) es h e)
      (sym (outcome_of-is_delivered h) ∙ d)

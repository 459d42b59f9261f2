-- ===== src/History/Invariants.antt =====
-- history.go, `replay`: how a property of what a replay knows is shown for every accepted chain, and
-- what an accepted chain says of its parts.
use st_air_case.Prelude.{
  ℕ, suc, false, not, ◌&&◌, ◌==◌, ℤ, List, [], ◌∷◌, ◌++◌, ◌≡◌, refl, append_assoc, append-nil,
  length, subst, ◌⊎◌, inl, inr,
}
use st_air_case.History.Payload.{Entry}
use st_air_case.History.State.{Replay, new_replay}
use st_air_case.History.Grammar.{Reason, refuse_when-replayed, Result-cases, replayed}
use st_air_case.History.Replay.{
  on_event, step, replay_from, replay, is_bound, is_barred, Outcome, refused, accepted,
}

-- The state in which an entry is read: its hash is on the chain.
abbrev pub seen : Entry → Replay → Replay
seen e h = record h { entries = h.entries ++ e.event_hash ∷ [] }

-- One accepted turn of the loop.
pub record Turn (before : List Entry) (e : Entry) (h h1 : Replay) : Type 0 where
  pub starts : (suc (length before) == 1 && not (is_bound e.event)) ≡ false
  pub allowed : is_barred h e.event ≡ false
  pub handled :
      on_event (suc (length before)) e.event_hash e.timestamp before e.event (seen e h)
      ≡ replayed h1

pub step-Turn :
    (before : List Entry) (e : Entry) (h h1 : Replay)
    → step before e h ≡ replayed h1
    → Turn before e h h1
unfolding step
step-Turn before e h h1 s =
    let (a, r) = refuse_when-replayed _ _ _ h1 s in
    let (b, c) = refuse_when-replayed _ _ _ h1 r in record { starts = a; allowed = b; handled = c }

accepted-injective : (a b : Replay) → accepted a ≡ accepted b → a ≡ b
accepted-injective a b e = cc e

pub Outcome-cases :
    (o : Outcome) → ((n : ℕ) × (w : Reason) × (o ≡ refused n w)) ⊎ ((h : Replay) × (o ≡ accepted h))
Outcome-cases (refused n w) = inl (n, w, refl)
Outcome-cases (accepted h) = inr (h, refl)

module _ {ℓ} (P : List Entry → Replay → Type ℓ) (start : P [] new_replay)
    (turn : (before : List Entry) (e : Entry) (h h1 : Replay)
      → P before h
      → Turn before e h h1
      → P (before ++ e ∷ []) h1)
    (untimed : (es : List Entry) (h : Replay) (d : ℤ)
      → P es h
      → P es (record h { elapsed = d })) where
  replay_from-keeps :
      (before es : List Entry) (h h1 : Replay)
      → P before h
      → replay_from before es h ≡ accepted h1
      → P (before ++ es) h1
  unfolding replay_from
  replay_from-keeps before [] h h1 p e =
      rw (append-nil before) (subst (P before) (accepted-injective h h1 e) p)
  replay_from-keeps before (x ∷ es) h h1 p e = elim (Result-cases (step before x h)) [
    | inl (w, s) ↦ cc (rw s at e)
    | inr (h2, s) ↦ rw (← append_assoc before (x ∷ []) es) (
        replay_from-keeps (before ++ x ∷ []) es h2 h1
          (turn before x h h2 p (step-Turn before x h h2 s)) (rw s at e))
  ]

  -- What holds at the start and is kept by every accepted turn holds of an accepted chain.
  pub replay-keeps : (es : List Entry) (h : Replay) → replay es ≡ accepted h → P es h
  unfolding replay
  replay-keeps es h e = elim (Outcome-cases (replay_from [] es new_replay)) [
    | inl (n, w, s) ↦ cc (rw s at e)
    | inr (h1, s) ↦
        subst (P es) (accepted-injective _ h (rw s at e))
          (untimed es h1 _ (replay_from-keeps [] es new_replay h1 start s))
  ]

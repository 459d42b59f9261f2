-- ===== src/History/Launches.antt =====
-- history.go: the agent launches of an accepted chain.
use st_air_case.Prelude.{
  ℕ, suc, ◌+◌, ◌-◌, ◌==◌, pos, pos_part, eqb_ℤ, String, Bool, true, false, not, ◌&&◌, ◌||◌, none,
  some, List, [], ◌∷◌, ◌++◌, str_eq, length, ◌≡◌, refl, arith, inl, inr, Bool-cases, eq_refl,
}
use st_air_case.History.Payload.{
  Resumed, LaunchClaimed, LaunchEnded, LaunchAcknowledged, Event, Entry, class_of, class_fits,
  known_outcome, run_resumed, launch_claimed, launch_ended, launch_acknowledged,
}
use st_air_case.History.State.{Launch, Replay, new_replay, is_set, update_last, open_launch}
use st_air_case.History.Grammar.{is_some, replayed}
use st_air_case.History.Refusals.{is_nil}
use st_air_case.History.Replay.{on_checked, on_note, on_event, replay, accepted}
use st_air_case.History.Replay.Launching.{
  ack_at, on_bound, on_resumed, on_claimed, new_launch, acknowledge, end_launch, on_ended,
  on_acknowledged,
}
use st_air_case.History.Replay.Deciding.{on_request, on_vote, on_decided}
use st_air_case.History.Replay.Delivering.{
  on_authorized, on_review, on_review_decided, on_delivered,
}
use st_air_case.History.Invariants.{seen, replay-keeps}

-- How a launch may have ended: not yet, or with a known outcome and a class that fits it.
abbrev pub ends_well_formed : Launch → Bool
ends_well_formed l =
    str_eq l.launch_outcome "" && str_eq l.launch_class ""
    || known_outcome l.launch_outcome
      && (str_eq l.launch_class (class_of l.launch_outcome)
          || class_fits l.launch_class l.launch_outcome)

-- The launches after the first `k`: numbered on from there, all but the last of them ended.
abbrev pub Numbered : ℕ → List Launch → Type 0
Numbered k [] = Unit
Numbered k (l ∷ ls) =
    (eqb_ℤ l.attempt (pos (suc k)) ≡ true)
    × (ends_well_formed l ≡ true)
    × ((is_nil ls || is_set l.launch_outcome) ≡ true)
    × Numbered (suc k) ls

abbrev is_launching : Event → Bool
is_launching (launch_claimed p) = true
is_launching (launch_ended p) = true
is_launching (launch_acknowledged p) = true
is_launching (run_resumed p) = true
is_launching _ = false

on_event-launches :
    (n : ℕ) (hash : String) (t : ℕ) (before : List Entry) (ev : Event) (h h1 : Replay)
    → on_event n hash t before ev h ≡ replayed h1
    → is_launching ev ≡ false
    → h1.launches ≡ h.launches
unfolding on_event on_bound on_request on_vote on_decided on_checked on_authorized on_review
    on_review_decided on_delivered on_note
on_event-launches n hash t before ev h h1 e l = ground arith

Numbered-append :
    (k : ℕ) (ls : List Launch) (l : Launch)
    → Numbered k ls
    → is_some (open_launch ls) ≡ false
    → eqb_ℤ l.attempt (pos (suc (k + length ls))) ≡ true
    → ends_well_formed l ≡ true
    → Numbered k (ls ++ l ∷ [])
unfolding open_launch
Numbered-append k [] l num shut at ok = (ground arith, ok, refl, tt)
Numbered-append k (x ∷ []) l (a, b, c, d) shut at ok =
    (a, b, ground arith, (ground arith, ok, refl, tt))
Numbered-append k (x ∷ y ∷ ys) l (a, b, c, d) shut at ok =
    (a, b, c, Numbered-append (suc k) (y ∷ ys) l d shut (ground arith) ok)

-- A change of the last launch that keeps its number and how it was written down.
Numbered-update_last :
    (f : Launch → Launch) (k : ℕ) (ls : List Launch)
    → ((l : Launch) → ends_well_formed l ≡ true → ends_well_formed (f l) ≡ true)
    → ((l : Launch) → (f l).attempt ≡ l.attempt)
    → Numbered k ls
    → Numbered k (update_last f ls)
Numbered-update_last f k [] ok same num = tt
Numbered-update_last f k (x ∷ []) ok same (a, b, c, d) = (rw (same x) a, ok x b, refl, tt)
Numbered-update_last f k (x ∷ y ∷ []) ok same (a, b, c, d) =
    (a, b, c, Numbered-update_last f (suc k) (y ∷ []) ok same d)
Numbered-update_last f k (x ∷ y ∷ z ∷ zs) ok same (a, b, c, d) =
    (a, b, c, Numbered-update_last f (suc k) (y ∷ z ∷ zs) ok same d)

is_nil-ack_at : (at : ℕ) (ls : List Launch) → is_nil (ack_at at ls) ≡ is_nil ls
is_nil-ack_at at [] = refl
is_nil-ack_at at (l ∷ ls) = refl

Numbered-ack_at : (at k : ℕ) (ls : List Launch) → Numbered k ls → Numbered k (ack_at at ls)
Numbered-ack_at at k [] num = tt
Numbered-ack_at at k (l ∷ ls) (a, b, c, d) =
    let rest = Numbered-ack_at (at - 1) (suc k) ls d in
    elim (Bool-cases (at == 1)) [
      | inl yes' ↦ rw (yes', is_nil-ack_at (at - 1) ls) (a, b, c, rest)
      | inr no' ↦ rw (no', is_nil-ack_at (at - 1) ls) (a, b, c, rest)
    ]

known_and_fitting :
    (open' known fits : Bool) → known ≡ true → fits ≡ true → (open' || known && fits) ≡ true
known_and_fitting open' known fits k f = ground arith

or_fits : (same fits : Bool) → not fits ≡ false → (same || fits) ≡ true
or_fits same fits h = ground arith

end_launch-ends_well_formed :
    (p : LaunchEnded) (l : Launch)
    → known_outcome p.outcome ≡ true
    → (is_set p.class && not (class_fits p.class p.outcome)) ≡ false
    → ends_well_formed (end_launch p l) ≡ true
end_launch-ends_well_formed p l known fits =
    known_and_fitting _ _ _ known (elim (Bool-cases (str_eq p.class "")) [
      | inl yes' ↦ rw yes' (rw (eq_refl (class_of p.outcome)) refl)
      | inr no' ↦ rw no' (or_fits _ _ (rw no' at fits))
    ])

on_claimed-launches :
    (n : ℕ) (hash : String) (t : ℕ) (c : LaunchClaimed) (h h1 : Replay)
    → on_claimed n hash t (some c) h ≡ replayed h1
    → (is_some (open_launch h.launches) ≡ false)
      × (eqb_ℤ c.attempt (pos (suc (0 + length h.launches))) ≡ true)
      × (h1.launches ≡ h.launches ++ new_launch n hash c ∷ [])
unfolding on_claimed
on_claimed-launches n hash t c h h1 e = ground arith

on_ended-launches :
    (t : ℕ) (p : LaunchEnded) (h h1 : Replay)
    → on_ended t (some p) h ≡ replayed h1
    → (known_outcome p.outcome ≡ true)
      × ((is_set p.class && not (class_fits p.class p.outcome)) ≡ false)
      × (h1.launches ≡ update_last (end_launch p) h.launches)
unfolding on_ended
on_ended-launches t p h h1 e = ground arith

on_acknowledged-launches :
    (p : LaunchAcknowledged) (h h1 : Replay)
    → on_acknowledged (some p) h ≡ replayed h1
    → h1.launches ≡ update_last acknowledge h.launches
unfolding on_acknowledged
on_acknowledged-launches p h h1 e = ground arith

on_resumed-launches :
    (n t : ℕ) (r : Resumed) (h h1 : Replay)
    → on_resumed n t (some r) h ≡ replayed h1
    → h1.launches ≡ ack_at (pos_part r.ack_unknown) h.launches
unfolding on_resumed
on_resumed-launches n t r h h1 e = ground arith

on_event-Numbered :
    (n : ℕ) (hash : String) (t : ℕ) (before : List Entry) (ev : Event) (h h1 : Replay)
    → Numbered 0 h.launches
    → on_event n hash t before ev h ≡ replayed h1
    → Numbered 0 h1.launches
unfolding on_event on_claimed on_ended on_acknowledged on_resumed
on_event-Numbered n hash t before (launch_claimed none) h h1 num e = ground arith
on_event-Numbered n hash t before (launch_claimed (some c)) h h1 num e =
    let (shut, at, same) = on_claimed-launches n hash t c h h1 e in
    rw same (Numbered-append 0 h.launches (new_launch n hash c) num shut at refl)
on_event-Numbered n hash t before (launch_ended none) h h1 num e = ground arith
on_event-Numbered n hash t before (launch_ended (some p)) h h1 num e =
    let (known, fits, same) = on_ended-launches t p h h1 e in
    rw same (
      Numbered-update_last (end_launch p) 0 h.launches
        (λ l ok. end_launch-ends_well_formed p l known fits) (λ l. refl) num)
on_event-Numbered n hash t before (launch_acknowledged none) h h1 num e = ground arith
on_event-Numbered n hash t before (launch_acknowledged (some p)) h h1 num e =
    rw (on_acknowledged-launches p h h1 e)
      (Numbered-update_last acknowledge 0 h.launches (λ l ok. ok) (λ l. refl) num)
on_event-Numbered n hash t before (run_resumed none) h h1 num e = ground arith
on_event-Numbered n hash t before (run_resumed (some r)) h h1 num e =
    rw (on_resumed-launches n t r h h1 e)
      (Numbered-ack_at (pos_part r.ack_unknown) 0 h.launches num)
on_event-Numbered n hash t before ev h h1 num e =
    rw (on_event-launches n hash t before ev h h1 e refl) num

-- The launches of an accepted chain are numbered from 1 without a gap, all but the last of them have
-- ended, and each that ended has a known outcome and a class that its outcome allows.
pub replay-Numbered :
    (es : List Entry) (h : Replay) → replay es ≡ accepted h → Numbered 0 h.launches
unfolding new_replay
replay-Numbered es h e =
    replay-keeps (λ es h. Numbered 0 h.launches) tt
      (λ before e h h1 num t. on_event-Numbered _ _ _ before e.event (seen e h) h1 num t.handled)
      (λ es h d num. num) es h e

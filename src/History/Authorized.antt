-- ===== src/History/Authorized.antt =====
-- history.go: what may follow an authorization to deliver without a person.
use st_air_case.Prelude.{
  ℕ, String, Bool, true, false, not, ◌&&◌, ◌||◌, Option, none, some, List, [], ◌∷◌, str_eq, length,
  ◌≡◌, refl, arith,
}
use st_air_case.History.Payload.{
  LaunchEnded, Event, event_type, Entry, launch_ended, run_path, evidence_failed,
  certificate_failed, recovery_repaired, delivery_authorized, commit_prepared, certificate_issued,
  run_recovered, other,
}
use st_air_case.History.State.{Launch, Replay, update_last}
use st_air_case.History.Grammar.{is_some, replayed}
use st_air_case.History.Refusals.{contains}
use st_air_case.History.Replay.{after_authorization, on_checked, on_note, on_event}
use st_air_case.History.Replay.Launching.{
  on_bound, on_resumed, on_claimed, end_launch, on_ended, on_acknowledged,
}
use st_air_case.History.Replay.Deciding.{on_request, on_vote, on_decided}
use st_air_case.History.Replay.Delivering.{
  on_authorized, on_review, on_review_decided, on_delivered,
}
use st_air_case.History.Invariants.{seen, Turn}

length-update_last :
    (f : Launch → Launch) (ls : List Launch) → length (update_last f ls) ≡ length ls
length-update_last f [] = refl
length-update_last f (x ∷ []) = refl
length-update_last f (x ∷ y ∷ []) = refl
length-update_last f (x ∷ y ∷ z ∷ zs) = omega (arith, length-update_last f (y ∷ z ∷ zs))

-- The events of the allow-list, by constructor, and a second authorization.
abbrev is_delivering : Event → Bool
is_delivering (commit_prepared p) = true
is_delivering (certificate_issued p) = true
is_delivering (run_recovered p) = true
is_delivering (recovery_repaired p) = true
is_delivering (certificate_failed p) = true
is_delivering (evidence_failed p) = true
is_delivering (launch_ended p) = true
is_delivering (run_path p) = true
is_delivering (delivery_authorized p) = true
is_delivering (other s) = true
is_delivering _ = false

allowed-is_delivering :
    (ev : Event)
    → (str_eq (event_type ev) "delivery_authorized" || contains after_authorization (event_type ev))
      ≡ true
    → is_delivering ev ≡ true
allowed-is_delivering (commit_prepared p) h = refl
allowed-is_delivering (certificate_issued p) h = refl
allowed-is_delivering (run_recovered p) h = refl
allowed-is_delivering (recovery_repaired p) h = refl
allowed-is_delivering (certificate_failed p) h = refl
allowed-is_delivering (evidence_failed p) h = refl
allowed-is_delivering (launch_ended p) h = refl
allowed-is_delivering (run_path p) h = refl
allowed-is_delivering (delivery_authorized p) h = refl
allowed-is_delivering (other s) h = refl
allowed-is_delivering ev h = h

barred_lem :
    (authorized' second allowed : Bool)
    → authorized' ≡ true
    → (authorized' && not second && not allowed) ≡ false
    → (second || allowed) ≡ true
barred_lem authorized' second allowed a b = ground arith

on_ended-length :
    (t : ℕ) (p : Option LaunchEnded) (h h1 : Replay)
    → on_ended t p h ≡ replayed h1
    → length h1.launches ≡ length h.launches
unfolding on_ended
on_ended-length t none h h1 e = ground arith
on_ended-length t (some p) h h1 e = ground (arith, length-update_last (end_launch p) h.launches)

abbrev is_launch_end : Event → Bool
is_launch_end (launch_ended p) = true
is_launch_end _ = false

on_event-launches :
    (n : ℕ) (hash : String) (t : ℕ) (before : List Entry) (ev : Event) (h h1 : Replay)
    → is_delivering ev ≡ true
    → is_launch_end ev ≡ false
    → on_event n hash t before ev h ≡ replayed h1
    → h1.launches ≡ h.launches
unfolding on_event on_authorized on_delivered on_note
on_event-launches n hash t before ev h h1 d l e = ground arith

on_event-length :
    (n : ℕ) (hash : String) (t : ℕ) (before : List Entry) (ev : Event) (h h1 : Replay)
    → is_delivering ev ≡ true
    → on_event n hash t before ev h ≡ replayed h1
    → length h1.launches ≡ length h.launches
unfolding on_event
on_event-length n hash t before (launch_ended p) h h1 d e = on_ended-length t p h h1 e
on_event-length n hash t before ev h h1 d e =
    rw (on_event-launches n hash t before ev h h1 d refl e) refl

on_event-delivering :
    (n : ℕ) (hash : String) (t : ℕ) (before : List Entry) (ev : Event) (h h1 : Replay)
    → is_some h.auth ≡ true
    → is_delivering ev ≡ true
    → on_event n hash t before ev h ≡ replayed h1
    → (h1.auth ≡ h.auth)
      × (h1.decisions ≡ h.decisions)
      × (h1.pending ≡ h.pending)
      × (h1.votes ≡ h.votes)
      × (h1.review ≡ h.review)
      × (h1.reviewed_since ≡ h.reviewed_since)
      × (h1.bound ≡ h.bound)
      × (h1.policy ≡ h.policy)
      × (h1.end.checked ≡ h.end.checked)
      × (h1.end.check ≡ h.end.check)
unfolding on_event on_bound on_resumed on_claimed on_ended on_acknowledged on_request on_vote
    on_decided on_checked on_authorized on_review on_review_decided on_delivered on_note
on_event-delivering n hash t before ev h h1 a d e = ground arith

-- Once delivery is authorized an accepted entry decides, asks, votes and launches nothing more, and
-- changes neither the authorization nor what it rests on.
pub authorized-stays :
    (before : List Entry) (x : Entry) (h h1 : Replay)
    → is_some h.auth ≡ true
    → Turn before x h h1
    → (h1.auth ≡ h.auth)
      × (h1.decisions ≡ h.decisions)
      × (h1.pending ≡ h.pending)
      × (h1.votes ≡ h.votes)
      × (length h1.launches ≡ length h.launches)
      × (h1.review ≡ h.review)
      × (h1.reviewed_since ≡ h.reviewed_since)
      × (h1.bound ≡ h.bound)
      × (h1.policy ≡ h.policy)
      × (h1.end.checked ≡ h.end.checked)
      × (h1.end.check ≡ h.end.check)
authorized-stays before x h h1 a t =
    let d = allowed-is_delivering x.event (
      barred_lem (is_some h.auth) _ (contains after_authorization (event_type x.event)) a
        t.allowed) in
    let (a1, a2, a3, a4, a5, a6, a7, a8, a9, a10) =
      on_event-delivering _ _ _ before x.event (seen x h) h1 a d t.handled in
    let n = on_event-length _ _ _ before x.event (seen x h) h1 d t.handled in
    (a1, a2, a3, a4, n, a5, a6, a7, a8, a9, a10)

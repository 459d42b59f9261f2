-- ===== src/History/Earned.antt =====
-- history.go: an authorization along an accepted chain.
use st_air_case.Prelude.{
  ℕ, suc, String, Bool, true, false, Option, none, some, List, [], ◌∷◌, ◌++◌, length, ◌≡◌, refl,
  arith, sym, subst, ap, ◌∙◌, inl, inr, Bool-cases,
}
use st_air_case.History.Payload.{PhaseChecked, Event, Entry, phase_was_checked, delivery_authorized}
use st_air_case.History.State.{Authorization, Replay, new_replay}
use st_air_case.History.Grammar.{is_some, replayed}
use st_air_case.History.Refusals.{is_check}
use st_air_case.History.Replay.{on_checked, on_note, on_event, replay, accepted}
use st_air_case.History.Replay.Launching.{
  on_bound, on_resumed, on_claimed, on_ended, on_acknowledged,
}
use st_air_case.History.Replay.Deciding.{on_request, on_vote, on_decided}
use st_air_case.History.Replay.Delivering.{
  on_authorized, on_review, on_review_decided, on_delivered,
}
use st_air_case.History.Delivery.{entry_at, HasCheck, IsEarned, entry_at-append, entry_at-last}
use st_air_case.History.Authorized.{authorized-stays}
use st_air_case.History.Authorizing.{on_authorized-auth, authorization-IsEarned}
use st_air_case.History.Invariants.{seen, Turn, replay-keeps}

-- What is kept of an authorization along the chain.
abbrev IsSound : List Entry → Replay → Type 0
IsSound es h = HasCheck es h × ((a : Authorization) → h.auth ≡ some a → IsEarned a es h)

on_event-check :
    (n : ℕ) (hash : String) (t : ℕ) (before : List Entry) (ev : Event) (h h1 : Replay)
    → on_event n hash t before ev h ≡ replayed h1
    → is_check ev ≡ false
    → (h1.end.checked ≡ h.end.checked) × (h1.end.check ≡ h.end.check)
unfolding on_event on_bound on_resumed on_claimed on_ended on_acknowledged on_request on_vote
    on_decided on_authorized on_review on_review_decided on_delivered on_note
on_event-check n hash t before ev h h1 e l = ground arith

abbrev is_authorizing : Event → Bool
is_authorizing (delivery_authorized p) = true
is_authorizing _ = false

on_event-auth :
    (n : ℕ) (hash : String) (t : ℕ) (before : List Entry) (ev : Event) (h h1 : Replay)
    → on_event n hash t before ev h ≡ replayed h1
    → is_authorizing ev ≡ false
    → h1.auth ≡ h.auth
unfolding on_event on_bound on_resumed on_claimed on_ended on_acknowledged on_request on_vote
    on_decided on_checked on_review on_review_decided on_delivered on_note
on_event-auth n hash t before ev h h1 e l = ground arith

on_checked-check :
    (n : ℕ) (hash : String) (t : ℕ) (p : Option PhaseChecked) (h h1 : Replay)
    → on_checked n hash t p h ≡ replayed h1
    → (p ≡ some h1.end.check) × (h1.end.checked ≡ n)
unfolding on_checked
on_checked-check n hash t p h h1 e = ground arith

HasCheck-append :
    (es : List Entry) (e : Entry) (h h1 : Replay)
    → h1.end.checked ≡ h.end.checked
    → h1.end.check ≡ h.end.check
    → HasCheck es h
    → HasCheck (es ++ e ∷ []) h1
HasCheck-append es e h h1 c k (inl z) = inl (c ∙ z)
HasCheck-append es e h h1 c k (inr (x, at, is')) =
    inr (x, rw c (entry_at-append h.end.checked es (e ∷ []) x at), rw k is')

HasCheck-event :
    (before : List Entry) (e : Entry) (ev : Event) (h h1 : Replay)
    → e.event ≡ ev
    → on_event (suc (length before)) e.event_hash e.timestamp before ev h ≡ replayed h1
    → HasCheck before h
    → HasCheck (before ++ e ∷ []) h1
unfolding on_event
HasCheck-event before e (phase_was_checked p) h h1 is' s ok =
    let (a, b) = on_checked-check (suc (length before)) e.event_hash e.timestamp p h h1 s in
    inr (e, rw b (entry_at-last before e), is' ∙ ap phase_was_checked a)
HasCheck-event before e ev h h1 is' s ok =
    let (a, b) =
      on_event-check (suc (length before)) e.event_hash e.timestamp before ev h h1 s refl in
    HasCheck-append before e h h1 a b ok

IsEarned-kept :
    (a : Authorization) (es es1 : List Entry) (h h1 : Replay)
    → ((k : ℕ) (x : Entry) → entry_at k es ≡ some x → entry_at k es1 ≡ some x)
    → h1.bound ≡ h.bound
    → h1.policy ≡ h.policy
    → h1.reviewed_since ≡ h.reviewed_since
    → h1.end.checked ≡ h.end.checked
    → h1.end.check ≡ h.end.check
    → IsEarned a es h
    → IsEarned a es1 h1
IsEarned-kept a es es1 h h1 m b p r c k ok = record {
  check_entry = ok.check_entry;
  stands = rw c (m h.end.checked ok.check_entry ok.stands);
  is_named = ok.is_named;
  is_latest = rw k ok.is_latest;
  has_passed = rw k ok.has_passed;
  same_tree = rw k ok.same_tree;
  not_offered = r ∙ ok.not_offered;
  by_policy = ok.by_policy;
  terms_set = rw b ok.terms_set;
  same_terms = rw b ok.same_terms;
  snapshot = ok.snapshot;
  loaded = p ∙ ok.loaded;
  is_signed_policy = ok.is_signed_policy;
  same_policy = ok.same_policy;
}

IsEarned-append :
    (a : Authorization) (es : List Entry) (e : Entry) (h h1 : Replay)
    → h1.bound ≡ h.bound
    → h1.policy ≡ h.policy
    → h1.reviewed_since ≡ h.reviewed_since
    → h1.end.checked ≡ h.end.checked
    → h1.end.check ≡ h.end.check
    → IsEarned a es h
    → IsEarned a (es ++ e ∷ []) h1
IsEarned-append a es e h h1 =
    IsEarned-kept a es (es ++ e ∷ []) h h1 (λ k x. entry_at-append k es (e ∷ []) x)

some_authorization :
    (a b : Authorization) → ◌≡◌ {A = Option Authorization} (some a) (some b) → a ≡ b
some_authorization a b e = cc e

-- Without an authorization there is none to speak of.
nothing_authorized {ℓ} :
    {P : Type ℓ} (o : Option Authorization) (a : Authorization) → is_some o ≡ false → o ≡ some a → P
nothing_authorized none a f e = cc e
nothing_authorized (some b) a f e = cc f

Earned-event :
    (before : List Entry) (e : Entry) (ev : Event) (h h1 : Replay)
    → on_event (suc (length before)) e.event_hash e.timestamp before ev h ≡ replayed h1
    → is_some h.auth ≡ false
    → HasCheck before h
    → (a : Authorization) → h1.auth ≡ some a
    → IsEarned a (before ++ e ∷ []) h1
unfolding on_event on_authorized
Earned-event before e (delivery_authorized none) h h1 s free ok a is' = ground arith
Earned-event before e (delivery_authorized (some p)) h h1 s free ok a is' =
    let (refused', auth', b, l, r, en) =
      on_authorized-auth (suc (length before)) e.event_hash e.timestamp before p h h1 s in
    let same = some_authorization _ a (sym auth' ∙ is') in
    subst (λ a. IsEarned a (before ++ e ∷ []) h1) same
      (IsEarned-append _ before e h h1 b l r (ap (λ x. x.checked) en) (ap (λ x. x.check) en)
        (authorization-IsEarned (suc (length before)) e.event_hash before p h refused' ok))
Earned-event before e ev h h1 s free ok a is' =
    nothing_authorized h.auth a free (
      sym (on_event-auth (suc (length before)) e.event_hash e.timestamp before ev h h1 s refl)
      ∙ is')

IsSound-Turn :
    (before : List Entry) (e : Entry) (h h1 : Replay)
    → IsSound before h
    → Turn before e h h1
    → IsSound (before ++ e ∷ []) h1
IsSound-Turn before e h h1 (ok, earned) t = elim (Bool-cases (is_some h.auth)) [
  | inl yes' ↦
      let (a, d, p, v, n, w, r, b, l, c, k) = authorized-stays before e h h1 yes' t in
      (
        HasCheck-append before e h h1 c k ok,
        λ x is'. IsEarned-append x before e h h1 b l r c k (earned x (sym a ∙ is')),
      )
  | inr no' ↦ (
    HasCheck-event before e e.event (seen e h) h1 refl t.handled ok,
    λ x is'. Earned-event before e e.event (seen e h) h1 t.handled no' ok x is',
  )
]

-- In an accepted chain an authorization names the latest phase_checked entry, whose checks passed on
-- the tree it is for and that no offered review followed; it is by policy, under the terms the run
-- was bound to, which are named, and under the policy the run loaded, which was signed.
pub replay-IsEarned :
    (es : List Entry) (h : Replay) (a : Authorization)
    → replay es ≡ accepted h
    → h.auth ≡ some a
    → IsEarned a es h
unfolding new_replay
replay-IsEarned es h a e is' =
    (replay-keeps IsSound (inl refl, λ x y. nothing_authorized none x refl y) IsSound-Turn
        (λ es h d ok.
          (ok.0, λ x y. IsEarned-kept x es es h _ (λ k z w. w) refl refl refl refl refl (ok.1 x y)))
        es h e).1
      a is'

-- ===== src/History/Authorizing.antt =====
-- history.go: the entry that authorizes delivery.
use st_air_case.Prelude.{
  ℕ, String, true, Option, none, some, List, ◌≡◌, ◌≢◌, refl, arith, sym, ◌∙◌, inl, inr,
}
use st_air_case.History.Payload.{
  PolicySnapshot, DeliveryAuthorized, Event, Entry, phase_was_checked,
}
use st_air_case.History.State.{Replay}
use st_air_case.History.Grammar.{replayed}
use st_air_case.History.Refusals.{is_signed, digest_of, authorization_refused}
use st_air_case.History.Replay.Delivering.{on_authorized}
use st_air_case.History.Delivery.{
  entry_at, HasCheck, IsEarned, named-entry_at, authorization_refused-none,
}

pub on_authorized-auth :
    (n : ℕ) (hash : String) (t : ℕ) (before : List Entry) (p : DeliveryAuthorized) (h h1 : Replay)
    → on_authorized n hash t before (some p) h ≡ replayed h1
    → (authorization_refused h before p ≡ none)
      × (h1.auth ≡ some (record { authorized = p; auth_index = n; auth_hash = hash }))
      × (h1.bound ≡ h.bound)
      × (h1.policy ≡ h.policy)
      × (h1.reviewed_since ≡ h.reviewed_since)
      × (h1.end ≡ h.end)
unfolding on_authorized
on_authorized-auth n hash t before p h h1 e = ground arith

signed_policy :
    (o : Option PolicySnapshot)
    → is_signed o ≡ true
    → (p : PolicySnapshot) × (o ≡ some p) × (p.signed ≡ true) × (digest_of o ≡ p.digest)
signed_policy none e = cc e
signed_policy (some p) e = (p, refl, e, refl)

same_event :
    (y x : Entry) (ev : Event)
    → ◌≡◌ {A = Option Entry} (some y) (some x)
    → y.event ≡ ev
    → x.event ≡ ev
same_event y x ev e h = let same : y ≡ x = cc e in rw (← same) h

check_of :
    (es : List Entry) (h : Replay) (x : Entry)
    → h.end.checked ≢ 0
    → entry_at h.end.checked es ≡ some x
    → HasCheck es h
    → x.event ≡ phase_was_checked (some h.end.check)
check_of es h x nz at (inl z) = elim (nz z) [ ]
check_of es h x nz at (inr (y, at', is')) = same_event y x _ (sym at' ∙ at) is'

pub authorization-IsEarned :
    (n : ℕ) (hash : String) (before : List Entry) (p : DeliveryAuthorized) (h : Replay)
    → authorization_refused h before p ≡ none
    → HasCheck before h
    → IsEarned (record { authorized = p; auth_index = n; auth_hash = hash }) before h
authorization-IsEarned n hash before p h e ok =
    let (at, nz, tree, pass, offered, mode, set, terms, signed', digest') =
      authorization_refused-none h before p e in
    let (x, stands, same) = named-entry_at p.auth_checked before h.end.checked at nz in
    let (s, l, sg, dg) = signed_policy h.policy signed' in
    record {
      check_entry = x;
      stands = stands;
      is_named = same;
      is_latest = check_of before h x nz stands ok;
      has_passed = pass;
      same_tree = tree;
      not_offered = offered;
      by_policy = mode;
      terms_set = set;
      same_terms = terms;
      snapshot = s;
      loaded = l;
      is_signed_policy = sg;
      same_policy = digest' ∙ dg;
    }

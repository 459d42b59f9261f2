-- ===== src/Orchestrator/Delivery/Authorizes.antt =====
-- delivery.go with history.go: the authorization of a run that delivers by policy, read back from its chain.
use st_air_case.Prelude.{
  ℕ, suc, String, ◌≡◌, refl, ◌∙◌, Bool, true, false, Option, none, some, List, [], ◌∷◌, ◌++◌, arith,
  str_eq, eq_refl, length, any, ◌==◌, if◌then◌else◌,
}
use st_air_case.History.Payload.{
  Bound, InitiatorSigned, PhaseChecked, Entry, phase_was_checked, delivery_authorized,
}
use st_air_case.History.State.{Authorization, Replay}
use st_air_case.History.Grammar.{
  Reason, already_authorized, replayed, is_some, refuse_when, refuse_on,
}
use st_air_case.History.Refusals.{is_check_at, named, is_signed, digest_of, authorization_refused}
use st_air_case.History.Replay.{on_event, on_checked}
use st_air_case.History.Replay.Delivering.{on_authorized}
use st_air_case.Orchestrator.Delivery.{
  DeliveryCase, Doubt, first_doubt, or_doubt, signed_policy, only_rules, nothing_parked,
  inside_bars, tree_doubt, checked_tree_doubt, protected_declared, initiator_signed,
  delivery_refusal, authorization,
}

pub or_doubt-none : (a b : Option Doubt) → or_doubt a b ≡ none → (a ≡ none) × (b ≡ none)
or_doubt-none none b h = (refl, h)
or_doubt-none (some d) b h = absurd (cc h)

positive : (n : ℕ) → (if suc n == 0 then 0 else suc (suc n)) ≡ suc (suc n)
positive n = ground arith

is_positive : (n : ℕ) → (suc n == 0) ≡ false
is_positive n = ground arith

named-fresh :
    (hash : String) (earlier : List Entry) (e : Entry)
    → any (is_check_at hash) earlier ≡ false
    → is_check_at hash e ≡ true
    → named hash (earlier ++ e ∷ []) ≡ suc (length earlier)
unfolding named
named-fresh hash [] e f h = rw h refl
named-fresh hash (x ∷ xs) e f h =
    let k = named-fresh hash xs e (ground arith) h in
    let l : is_check_at hash x ≡ false = ground arith in rw (l, k) (positive (length xs))

-- What the conditions on the history come to, as far as the grammar of the chain asks.
signed_policy-none :
    (c : DeliveryCase)
    → signed_policy c ≡ none
    → (str_eq c.hist.bound.terms_sha256 "" ≡ false) × (is_signed c.hist.policy ≡ true)
unfolding signed_policy first_doubt
signed_policy-none c h = ground arith

checked_tree-none :
    (c : DeliveryCase)
    → checked_tree_doubt c ≡ none
    → (str_eq c.hist.end.check.checked_tree c.tree ≡ true) × (c.hist.end.check.passed ≡ true)
unfolding checked_tree_doubt tree_doubt first_doubt
checked_tree-none c h = let (a, b) = or_doubt-none (tree_doubt c) _ h in ground arith

authorization-accepted :
    (c : DeliveryCase) (before : List Entry)
    → named c.hist.end.checked_entry before ≡ c.hist.end.checked
    → (c.hist.end.checked == 0) ≡ false
    → c.hist.reviewed_since ≡ false
    → signed_policy c ≡ none
    → checked_tree_doubt c ≡ none
    → authorization_refused c.hist before (authorization c) ≡ none
unfolding authorization_refused authorization
authorization-accepted c before n z r s k =
    let (terms, signed) = signed_policy-none c s in
    let (tree, passed) = checked_tree-none c k in
    let same = eq_refl (c.hist.bound.terms_sha256) in
    let same' = eq_refl (digest_of c.hist.policy) in ground arith

passes :
    (a : Option Authorization) (r : Option Reason) (k : Replay)
    → a ≡ none
    → r ≡ none
    → refuse_when (is_some a) already_authorized (refuse_on r (replayed k)) ≡ replayed k
passes a r k n m = rw (n, m) refl

module _ (initiator_ok : Bound → InitiatorSigned → Bool)
    (path_match : String → String → Option Bool) (to_lower : String → String) where
  pub refusal-parts :
      (c : DeliveryCase)
      → delivery_refusal initiator_ok path_match to_lower c ≡ none
      → (signed_policy c ≡ none)
        × (only_rules c ≡ none)
        × (nothing_parked c ≡ none)
        × (inside_bars path_match to_lower c ≡ none)
        × (checked_tree_doubt c ≡ none)
        × (protected_declared c ≡ none)
        × (initiator_signed initiator_ok c ≡ none)
  unfolding delivery_refusal
  refusal-parts c h =
      let (a, r) = or_doubt-none (signed_policy c) _ h in
      let (b, r) = or_doubt-none (only_rules c) _ r in
      let (d, r) = or_doubt-none (nothing_parked c) _ r in
      let (e, r) = or_doubt-none (inside_bars path_match to_lower c) _ r in
      let (f, r) = or_doubt-none (checked_tree_doubt c) _ r in
      let (g, i) = or_doubt-none (protected_declared c) _ r in (a, b, d, e, f, g, i)

  on_checked-state :
      (n : ℕ) (hash : String) (t : ℕ) (p : PhaseChecked) (h0 h : Replay)
      → on_checked n hash t (some p) h0 ≡ replayed h
      → (h.end.checked ≡ n)
        × (h.end.checked_entry ≡ hash)
        × (h.reviewed_since ≡ false)
        × (h.auth ≡ h0.auth)
  unfolding on_checked
  on_checked-state n hash t p h0 h e = ground arith

  accepts :
      (n : ℕ) (hash : String) (t : ℕ) (before : List Entry) (c : DeliveryCase)
      → c.hist.auth ≡ none
      → authorization_refused c.hist before (authorization c) ≡ none
      → (h : Replay) × (on_authorized n hash t before (some (authorization c)) c.hist ≡ replayed h)
  unfolding on_authorized
  accepts n hash t before c none' ok' = (_, passes c.hist.auth _ _ none' ok')

  -- The run checks the approved tree, writes the entry of it, reads its chain back and judges. Where no
  -- delivery was authorized before, no other check has the hash of that entry, and all seven conditions
  -- hold, the replay of the chain accepts the authorization that the run then writes.
  pub judged-accepted :
      (earlier : List Entry) (e : Entry) (p : PhaseChecked) (h0 : Replay) (c : DeliveryCase)
      (hash : String) (t : ℕ)
      → on_event
          (suc (length earlier))
          e.event_hash
          e.timestamp
          earlier
          (phase_was_checked (some p))
          h0
        ≡ replayed c.hist
      → e.event ≡ phase_was_checked (some p)
      → any (is_check_at e.event_hash) earlier ≡ false
      → h0.auth ≡ none
      → delivery_refusal initiator_ok path_match to_lower c ≡ none
      → (h : Replay) × (on_event
            (suc (suc (length earlier)))
            hash
            t
            (earlier ++ e ∷ [])
            (delivery_authorized (some (authorization c)))
            c.hist
          ≡ replayed h)
  unfolding on_event
  judged-accepted earlier e p h0 c hash t checked is' fresh none' judged =
      let (n, named', since, auth) =
        on_checked-state (suc (length earlier)) e.event_hash e.timestamp p h0 c.hist checked in
      let parts = refusal-parts c judged in
      let here : is_check_at e.event_hash e ≡ true = rw is' (eq_refl e.event_hash) in
      accepts _ hash t (earlier ++ e ∷ []) c (auth ∙ none') (
        authorization-accepted c (earlier ++ e ∷ [])
          (rw (named', n) (named-fresh e.event_hash earlier e fresh here))
          (rw n (is_positive (length earlier))) since parts.0 parts.4)

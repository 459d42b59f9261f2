-- ===== src/History/Replay/Delivering.antt =====
-- history.go, `replay`: the cases of an authorization, of reviews and of named commits.
use st_air_case.Prelude.{
  ℕ, String, true, ◌||◌, Option, none, some, List, [], ◌∷◌, ◌++◌, str_eq, if◌then◌else◌,
}
use st_air_case.History.Payload.{
  PhaseChecked, AwaitingReview, ReviewDecided, DeliveryAuthorized, Delivered, Event, Entry,
  phase_was_checked,
}
use st_air_case.History.State.{Review, Replay, first_of}
use st_air_case.History.Grammar.{
  Result, read, refuse_when, refuse_on, is_some, already_authorized, replayed,
}
use st_air_case.History.Refusals.{is_check_at, authorization_refused}

-- The case delivery_authorized.
unfoldable pub on_authorized :
    ℕ → String → ℕ → List Entry → Option DeliveryAuthorized → Replay → Result
on_authorized n hash t before p0 h = refuse_when (is_some h.auth) already_authorized (
    read p0 (λ p. refuse_on (authorization_refused h before p) (
      replayed (record h {
        last_time = t;
        auth = some (record { authorized = p; auth_index = n; auth_hash = hash });
        sealed = first_of h.sealed "delivery_authorized";
      }))))

payload_of : Event → Option PhaseChecked
payload_of (phase_was_checked p) = p
payload_of _ = none

or_checks : Option PhaseChecked → Option PhaseChecked → Option PhaseChecked
or_checks none b = b
or_checks (some a) b = some a

-- The checks of the last phase_checked entry with that hash.
unfoldable pub checks_at : String → List Entry → Option PhaseChecked
unfolding payload_of or_checks
checks_at hash [] = none
checks_at hash (e ∷ es) =
    let rest = checks_at hash es in
    or_checks rest (if is_check_at hash e then payload_of e.event else none)

-- The case awaiting_review.
unfoldable pub on_review : ℕ → String → ℕ → List Entry → Option AwaitingReview → Replay → Result
on_review n hash t before p h = read p (λ r. replayed (record h {
  last_time = t;
  reviewed_since = true;
  review = some (record {
    offered = r;
    review_index = n;
    review_hash = hash;
    checks = checks_at r.phase_checked before;
    review_decided = "";
  });
}))

decide_review : String → Option Review → Option Review
decide_review s none = none
decide_review s (some r) = some (record r { review_decided = s })

-- The cases review_accepted and review_rejected.
unfoldable pub on_review_decided : String → ℕ → Option ReviewDecided → Replay → Result
unfolding decide_review
on_review_decided s t p h =
    read p (λ r. replayed (record h { last_time = t; review = decide_review s h.review }))

-- The four cases that name a commit.
unfoldable pub on_delivered : String → ℕ → Option Delivered → Replay → Result
on_delivered name t p0 h =
    let prepared = str_eq name "commit_prepared" in
    let final = str_eq name "run_recovered" || str_eq name "review_delivered" in
    read p0 (λ p. replayed (record h {
      last_time = t;
      deliveries = h.deliveries ++ record { delivery_event = name; delivered = p } ∷ [];
      end = record (h.end) {
        commit = if prepared then h.end.commit else p.commit;
        evidence = if final then p.evidence_errors else h.end.evidence;
        recovered = if final then str_eq name "run_recovered" else h.end.recovered;
      };
      sealed =
          if str_eq h.sealed "" || str_eq h.sealed "delivery_authorized" then name else h.sealed;
      agent_ended = if prepared then first_of h.agent_ended name else h.agent_ended;
      run_ended = if prepared then h.run_ended else first_of h.run_ended name;
    }))

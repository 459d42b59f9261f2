-- ===== src/History/Orderly.antt =====
-- history.go: the order of requests and decisions, and the entries that keep it.
use st_air_case.Prelude.{
  ℕ, suc, ◌+◌, ◌≤◌, ◌<◌, ltb, ltb_ℤ, String, Bool, true, false, not, ◌&&◌, Option, none, some, List,
  [], ◌∷◌, ◌++◌, str_eq, ◌≡◌, refl, arith, sym, append-nil, append_assoc, All, All-append, All-map,
  Pairwise,
}
use st_air_case.History.Payload.{Resumed}
use st_air_case.History.State.{Request, Decision, Replay}
use st_air_case.History.Grammar.{replayed}
use st_air_case.History.Replay.Launching.{on_resumed}
use st_air_case.History.Replay.Deciding.{asked, on_request, answers}
use st_air_case.History.Requests.{count_at}

abbrev is_answer_to : Decision → Option Request → Bool
is_answer_to d none = str_eq d.action_type "final_review"
is_answer_to d (some r) =
    not (str_eq d.action_type "final_review")
    && ltb r.request_index d.decision_index
    && str_eq r.request_action d.action_type
    && answers d.decided r

-- A final review answers no request; any other decision answers an earlier one of its kind, the one
-- it names where it names one.
abbrev pub is_answered : Decision → Bool
is_answered d = is_answer_to d d.request

-- Decision `d` is before `d'`, in proposal numbers and on the chain.
abbrev pub Precedes : Decision → Decision → Type 0
Precedes d d' = (ltb_ℤ d.seq d'.seq ≡ true) × (d.decision_index < d'.decision_index)

abbrev pub used_by : Option Request → List Request
used_by none = []
used_by (some r) = r ∷ []

-- The requests that the decisions used up.
abbrev pub used : List Decision → List Request
used [] = []
used (d ∷ ds) = used_by d.request ++ used ds

-- What holds of the requests and decisions after the first `n` entries.
pub record IsOrderly (n : ℕ) (h : Replay) : Type 0 where
  pub ascending : Pairwise Precedes h.decisions
  pub made_before :
      All (λ d. (ltb_ℤ h.last_decided d.seq ≡ false) × (d.decision_index ≤ n)) h.decisions
  pub answered : All (λ d. is_answered d ≡ true) h.decisions
  pub asked_before : All (λ r. r.request_index ≤ n) h.pending
  pub used_before : All (λ r. r.request_index ≤ n) (used h.decisions)
  pub used_once : (i : ℕ) → count_at i (used h.decisions) + count_at i h.pending ≤ 1

pub count_at-append :
    (i : ℕ) (rs qs : List Request) → count_at i (rs ++ qs) ≡ count_at i rs + count_at i qs
count_at-append i [] qs = omega arith
count_at-append i (r ∷ rs) qs = omega (arith, count_at-append i rs qs)

pub used-append :
    (ds : List Decision) (d : Decision) → used (ds ++ d ∷ []) ≡ used ds ++ used_by d.request
used-append [] d = append-nil (used_by d.request)
used-append (x ∷ ds) d =
    rw (used-append ds d) (sym (append_assoc (used_by x.request) (used ds) (used_by d.request)))

-- No request stands past the end of what was read.
pub count_at-later :
    (n i : ℕ) (rs : List Request) → All (λ r. r.request_index ≤ n) rs → n < i → count_at i rs ≡ 0
count_at-later n i [] a l = refl
count_at-later n i (r ∷ rs) a l = ground (arith, count_at-later n i rs a.1 l)

pub on_request-pending :
    (n : ℕ) (hash : String) (t : ℕ) (a : String) (h h1 : Replay)
    → on_request n hash t (some a) h ≡ replayed h1
    → (h1.pending ≡ h.pending ++ asked n hash a ∷ [])
      × (h1.decisions ≡ h.decisions)
      × (h1.last_decided ≡ h.last_decided)
unfolding on_request
on_request-pending n hash t a h h1 e = ground arith

pub on_resumed-pending :
    (n t : ℕ) (p : Option Resumed) (h h1 : Replay)
    → on_resumed n t p h ≡ replayed h1
    → (h1.pending ≡ []) × (h1.decisions ≡ h.decisions) × (h1.last_decided ≡ h.last_decided)
unfolding on_resumed
on_resumed-pending n t p h h1 e = ground arith

pub ask-IsOrderly :
    (n : ℕ) (h h1 : Replay) (r : Request)
    → r.request_index ≡ suc n
    → h1.pending ≡ h.pending ++ r ∷ []
    → h1.decisions ≡ h.decisions
    → h1.last_decided ≡ h.last_decided
    → IsOrderly n h
    → IsOrderly (suc n) h1
ask-IsOrderly n h h1 r at p d l ok = record {
  ascending = rw d ok.ascending;
  made_before =
      rw (d, l) (All-map _ _ h.decisions (λ x y. (y.0, omega (arith, y.1))) ok.made_before);
  answered = rw d ok.answered;
  asked_before = rw p (
      All-append _ h.pending (r ∷ [])
        (All-map _ _ h.pending (λ x y. omega (arith, y)) ok.asked_before) (omega (arith, at), tt));
  used_before = rw d (All-map _ _ (used h.decisions) (λ x y. omega (arith, y)) ok.used_before);
  used_once = λ i.
      rw (p, d)
        (ground (
          arith,
          ok.used_once i,
          count_at-append i h.pending (r ∷ []),
          at,
          count_at-later n i h.pending ok.asked_before,
          count_at-later n i (used h.decisions) ok.used_before,
        ));
}

pub same-IsOrderly :
    (n : ℕ) (h h1 : Replay)
    → h1.decisions ≡ h.decisions
    → h1.last_decided ≡ h.last_decided
    → All (λ r. r.request_index ≤ n) h1.pending
    → ((i : ℕ) → count_at i h1.pending ≤ count_at i h.pending)
    → IsOrderly n h
    → IsOrderly (suc n) h1
same-IsOrderly n h h1 d l a c ok = record {
  ascending = rw d ok.ascending;
  made_before =
      rw (d, l) (All-map _ _ h.decisions (λ x y. (y.0, omega (arith, y.1))) ok.made_before);
  answered = rw d ok.answered;
  asked_before = All-map _ _ h1.pending (λ x y. omega (arith, y)) a;
  used_before = rw d (All-map _ _ (used h.decisions) (λ x y. omega (arith, y)) ok.used_before);
  used_once = λ i. rw d (omega (arith, ok.used_once i, c i));
}

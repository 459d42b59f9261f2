-- ===== src/History/Latest.antt =====
-- history.go, `replay`: the phase_checked entry and the mark of a review that the replay keeps, and what
-- followed that entry on an accepted chain.
use st_air_case.Prelude.{
  ℕ, String, Bool, true, false, List, [], ◌∷◌, ◌++◌, length, All, ◌≡◌, refl, sym, ◌∙◌, inl, inr,
  Bool-cases, arith, append_assoc, append-nil, length-append, All-append,
}
use st_air_case.History.Payload.{Event, Entry, phase_was_checked, awaiting_review}
use st_air_case.History.State.{Replay, Authorization, new_replay}
use st_air_case.History.Grammar.{replayed}
use st_air_case.Prelude.{some}
use st_air_case.History.Replay.{on_checked, on_note, on_event, replay, accepted}
use st_air_case.History.Replay.Launching.{
  on_bound, on_resumed, on_claimed, on_ended, on_acknowledged,
}
use st_air_case.History.Replay.Deciding.{on_request, on_vote, on_decided}
use st_air_case.History.Replay.Delivering.{
  on_authorized, on_review, on_review_decided, on_delivered,
}
use st_air_case.History.Delivery.{IsEarned}
use st_air_case.History.Earned.{replay-IsEarned}
use st_air_case.History.Invariants.{seen, Turn, replay-keeps}

-- A phase_checked entry.
abbrev pub is_phase_checked : Event → Bool
is_phase_checked (phase_was_checked p) = true
is_phase_checked _ = false

-- An awaiting_review entry, which offers a review.
abbrev pub is_offered : Event → Bool
is_offered (awaiting_review p) = true
is_offered _ = false

-- The chain is cut behind the entry at that position, counted from 1, or at the start where it is 0.
-- No phase_checked entry stands behind the cut, and where the mark is absent no awaiting_review entry
-- either.
pub record IsLatest (checked : ℕ) (reviewed : Bool) (es : List Entry) : Type 0 where
  pub earlier : List Entry
  pub later : List Entry
  pub chain : es ≡ earlier ++ later
  pub cut : length earlier ≡ checked
  pub no_check : All (λ (x : Entry). is_phase_checked x.event ≡ false) later
  pub no_review : reviewed ≡ false → All (λ (x : Entry). is_offered x.event ≡ false) later

abbrev Follows : List Entry → Replay → Type 0
Follows es h = IsLatest h.end.checked h.reviewed_since es

on_event-later :
    (n : ℕ) (hash : String) (t : ℕ) (before : List Entry) (ev : Event) (h h1 : Replay)
    → on_event n hash t before ev h ≡ replayed h1
    → is_phase_checked ev ≡ false
    → (h1.end.checked ≡ h.end.checked)
      × (h1.reviewed_since ≡ false → (h.reviewed_since ≡ false) × (is_offered ev ≡ false))
unfolding on_event on_bound on_resumed on_claimed on_ended on_acknowledged on_request on_vote
    on_decided on_authorized on_review on_review_decided on_delivered on_note
on_event-later n hash t before ev h h1 e l = ground arith

on_event-here :
    (n : ℕ) (hash : String) (t : ℕ) (before : List Entry) (ev : Event) (h h1 : Replay)
    → on_event n hash t before ev h ≡ replayed h1
    → is_phase_checked ev ≡ true
    → h1.end.checked ≡ n
unfolding on_event on_checked
on_event-here n hash t before (phase_was_checked p) h h1 e l = ground arith
on_event-here n hash t before ev h h1 e l = cc l

Follows-Turn :
    (before : List Entry) (e : Entry) (h h1 : Replay)
    → Follows before h
    → Turn before e h h1
    → Follows (before ++ e ∷ []) h1
Follows-Turn before e h h1 ok t = elim (Bool-cases (is_phase_checked e.event)) [
  | inl here ↦
      let at = on_event-here _ _ _ before e.event (seen e h) h1 t.handled here in
      record {
        earlier = before ++ e ∷ [];
        later = [];
        chain = sym (append-nil (before ++ e ∷ []));
        cut = omega (arith, length-append before (e ∷ []));
        no_check = tt;
        no_review = λ r. tt;
      }
  | inr there ↦
      let (same, kept) = on_event-later _ _ _ before e.event (seen e h) h1 t.handled there in
      record {
        earlier = ok.earlier;
        later = ok.later ++ e ∷ [];
        chain = rw ok.chain (append_assoc ok.earlier ok.later (e ∷ []));
        cut = ok.cut ∙ sym same;
        no_check = All-append _ ok.later (e ∷ []) ok.no_check (there, tt);
        no_review =
            λ r. let (a, b) = kept r in All-append _ ok.later (e ∷ []) (ok.no_review a) (b, tt);
      }
]

-- In an accepted chain an authorization names a phase_checked entry whose checks passed on the tree it is
-- for; behind that entry the chain holds neither another phase_checked entry nor an awaiting_review entry.
-- It is by policy, under the terms the run was bound to, which are named, and under the policy the run
-- loaded, which was signed.
pub replay-IsLatest :
    (es : List Entry) (h : Replay) (a : Authorization)
    → replay es ≡ accepted h
    → h.auth ≡ some a
    → IsEarned a es h × IsLatest h.end.checked false es
unfolding new_replay
replay-IsLatest es h a e is' =
    let earned = replay-IsEarned es h a e is' in
    let f =
      replay-keeps Follows
        (record {
          earlier = [];
          later = [];
          chain = refl;
          cut = refl;
          no_check = tt;
          no_review = λ r. tt;
        })
        Follows-Turn (λ es h d ok. ok) es h e in
    (
      earned,
      record {
        earlier = f.earlier;
        later = f.later;
        chain = f.chain;
        cut = f.cut;
        no_check = f.no_check;
        no_review = λ r. f.no_review earned.not_offered;
      },
    )

-- ===== src/History/Grammar.antt =====
-- history.go: `GrammarError` and the errors that stop a replay. Each constructor of `Reason` is one
-- message of the replay, in the order of the code; the texts are not modelled.
use st_air_case.Prelude.{Bool, true, false, Option, none, some, ◌≡◌, refl, ◌⊎◌, inl, inr, arith}
use st_air_case.History.State.{Replay}

pub data Reason : Type 0 where
  begins_with_other bound_twice unreadable resumed_after_end resumed_with_open_launch : Reason
  launch_after_end launched_while_open wrong_attempt outcome_after_end no_open_launch : Reason
  unknown_outcome unfit_class acknowledged_after_end no_lost_launch already_acknowledged : Reason
  request_after_end vote_after_end decision_after_end seq_not_increasing no_request : Reason
  already_authorized follows_authorization : Reason
  no_panel not_on_panel bad_verdict votes_on_nothing voted_twice : Reason
  other_panel missing_vote disagreeing_vote : Reason
  names_no_check not_latest_check other_tree check_failed offered_review other_mode : Reason
  other_terms unsigned_policy other_policy : Reason

-- What the replay makes of an entry: the next state, or the reason of a GrammarError.
pub data Result : Type 0 where
  failed_for : Reason → Result
  replayed : Replay → Result

-- `read`: the payload, or the error that it is unreadable.
abbrev pub read {ℓ} : {P : Type ℓ} → Option P → (P → Result) → Result
read none k = failed_for unreadable
read (some p) k = k p

-- `if b { return fail(r) }`
abbrev pub refuse_when : Bool → Reason → Result → Result
refuse_when true r k = failed_for r
refuse_when false r k = k

abbrev pub refuse_on : Option Reason → Result → Result
refuse_on (some r) k = failed_for r
refuse_on none k = k

abbrev pub is_some {ℓ} : {A : Type ℓ} → Option A → Bool
is_some none = false
is_some (some a) = true

abbrev pub some_and {ℓ} : {A : Type ℓ} → (A → Bool) → Option A → Bool
some_and f none = false
some_and f (some a) = f a

pub refuse_when-replayed :
    (b : Bool) (r : Reason) (k : Result) (h : Replay)
    → refuse_when b r k ≡ replayed h
    → (b ≡ false) × (k ≡ replayed h)
refuse_when-replayed b r k h e = ground arith

pub Result-cases :
    (r : Result) → ((w : Reason) × (r ≡ failed_for w)) ⊎ ((h : Replay) × (r ≡ replayed h))
Result-cases (failed_for w) = inl (w, refl)
Result-cases (replayed h) = inr (h, refl)

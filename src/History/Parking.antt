-- ===== src/History/Parking.antt =====
-- history.go: the parked proposals of a history, and the launches without an established end.
use st_air_case.Prelude.{
  eqb_ℤ, ltb_ℤ, pos, All, ℤ, Bool, true, false, not, ◌&&◌, List, [], ◌∷◌, str_eq, any, ◌≡◌, refl,
  ◌↔◌, ◌∙◌, sym, arith, Memᴰ, select-Mem, Mem-select,
}
use st_air_case.History.State.{Replay, Decision}
use st_air_case.History.Grammar.{is_some}
use st_air_case.History.Queries.{parked, adopted_at, adopting}

-- An approved decision names the proposal that it takes over.
pub record Adopts (seq : ℤ) (x : Decision) : Type 0 where
  pub is_approved : x.approved ≡ true
  pub is_numbered : ltb_ℤ (pos 0) x.adopts ≡ true
  pub is_it : eqb_ℤ x.adopts seq ≡ true

-- Some approved decision takes the proposal over.
abbrev pub is_adopted : ℤ → List Decision → Bool
is_adopted seq ds = any (λ x. adopting x && eqb_ℤ x.adopts seq) ds

adopted_at-is_adopted :
    (seq : ℤ) (ds : List Decision) → is_some (adopted_at seq ds) ≡ is_adopted seq ds
unfolding adopted_at
adopted_at-is_adopted seq [] = refl
adopted_at-is_adopted seq (d ∷ ds) = ground (arith, adopted_at-is_adopted seq ds)

and_iff : (a b : Bool) → ((a && not b) ≡ true) ↔ ((a ≡ true) × (b ≡ false))
and_iff a b = ground arith

adopted_none :
    (seq : ℤ) (ds : List Decision) → (is_adopted seq ds ≡ false) ↔ All (λ x. ¬ Adopts seq x) ds
adopted_none seq [] = (λ h. tt, λ h. refl)
adopted_none seq (d ∷ ds) = ground (arith, adopted_none seq ds)

-- A decision waits for the owner as parked exactly when it is a decision of the chain whose source is
-- "parked" and no approved decision of the chain names its number, above 0, as the proposal it takes over.
pub parked_iff :
    (h : Replay) (d : Decision)
    → Memᴰ d (parked h) ↔ (
        Memᴰ d h.decisions
        × (str_eq d.source "parked" ≡ true)
        × All (λ x. ¬ Adopts d.seq x) h.decisions)
unfolding parked
parked_iff h d = (
  λ m.
      let (a, b) = Mem-select _ d h.decisions m in
      let (s, n) = (and_iff _ _).0 b in
      (
        a,
        s,
        (adopted_none d.seq h.decisions).0 (sym (adopted_at-is_adopted d.seq h.decisions) ∙ n),
      ),
  λ x. select-Mem _ d h.decisions x.0 (
      (and_iff _ _).1
        (x.1, adopted_at-is_adopted d.seq h.decisions ∙ (adopted_none d.seq h.decisions).1 x.2)),
)

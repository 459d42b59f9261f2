-- ===== src/History/Queries.antt =====
-- history.go: what the rest of the program asks of a history.
use st_air_case.Prelude.{
  ℕ, ltb, ◌==◌, ℤ, pos, ltb_ℤ, eqb_ℤ, String, Bool, true, false, not, ◌&&◌, ◌||◌, Option, none,
  some, List, [], ◌∷◌, str_eq, any, all, select, map, length, if◌then◌else◌,
}
use st_air_case.History.State.{Decision, Launch, Review, Replay, is_set, last_of, lost}
use st_air_case.History.Grammar.{is_some, some_and}
use st_air_case.History.Refusals.{contains, is_nil}

-- `MaxLostLaunches`
abbrev pub max_lost_launches : ℕ
max_lost_launches = 3

-- `Attempts`
unfoldable pub attempts : Replay → ℕ
attempts h = if ltb 0 (length h.launches) then length h.launches else h.segment

-- `History.Lost`
unfoldable pub lost_launches : List Launch → ℕ
lost_launches ls = length (select lost ls)

abbrev parked_attempt : Option Launch → ℤ
parked_attempt none = pos 0
parked_attempt (some l) = if lost l && not l.acked then l.attempt else pos 0

-- `LaunchParked`
unfoldable pub launch_parked : Replay → ℤ
launch_parked h = parked_attempt (last_of h.launches)

-- `Failures`
unfoldable pub failures : Replay → List Launch
failures h = select (λ l. is_set l.launch_class) h.launches

abbrev pub is_final : Decision → Bool
is_final d = str_eq d.action_type "final_review"

-- `Approvals`
unfoldable pub approvals : Replay → List Decision
approvals h = select (λ d. d.approved && str_eq d.action_type "file_edit") h.decisions

-- `Unconsumed`, as the list of its keys and values.
unfoldable pub unconsumed_of : Replay → List (ℤ × String)
unconsumed_of h =
    map (λ d. (d.seq, d.request_sha256)) (select (λ d. d.unconsumed && not d.approved) h.decisions)

abbrev pub lookup : String → List (String × String) → Option String
lookup k [] = none
lookup k (p ∷ ps) = if str_eq p.0 k then some p.1 else lookup k ps

-- `maps.Equal`, for lists of pairs whose first parts are distinct.
unfoldable pub maps_equal : List (String × String) → List (String × String) → Bool
maps_equal xs ys =
    length xs == length ys && all (λ p. some_and (λ v. str_eq p.1 v) (lookup p.0 ys)) xs

abbrev pub index_of : Option Decision → ℕ
index_of none = 0
index_of (some d) = d.decision_index

-- A final review that `FinalReviewed` weighs: approved, and not before the last approval.
abbrev pub weighs : ℕ → Decision → Bool
weighs after d = is_final d && d.approved && not (ltb d.decision_index after)

-- The loop of `FinalReviewed`; none is its error.
unfoldable pub reviewed_in : ℕ → List (String × String) → Bool → List Decision → Option Bool
reviewed_in after files seen [] = some seen
reviewed_in after files seen (d ∷ ds) =
    let skipped = reviewed_in after files seen ds in
    let weighed = reviewed_in after files true ds in
    if not (weighs after d) then skipped else if maps_equal d.files files then weighed else none

-- `FinalReviewed`
unfoldable pub final_reviewed : Replay → List (String × String) → Option Bool
final_reviewed h files = reviewed_in (index_of (last_of (approvals h))) files false h.decisions

abbrev pub adopting : Decision → Bool
adopting d = d.approved && ltb_ℤ (pos 0) d.adopts

abbrev pub or_index : Option ℕ → Option ℕ → Option ℕ
or_index (some n) o = some n
or_index none o = o

-- The value of `Adopted` at a proposal: the position of the last decision that adopts it.
unfoldable pub adopted_at : ℤ → List Decision → Option ℕ
adopted_at seq [] = none
adopted_at seq (d ∷ ds) =
    let rest = adopted_at seq ds in
    or_index rest (if adopting d && eqb_ℤ d.adopts seq then some d.decision_index else none)

-- `Parked`
unfoldable pub parked : Replay → List Decision
parked h =
    select (λ d. str_eq d.source "parked" && not (is_some (adopted_at d.seq h.decisions)))
      h.decisions

abbrev review_after : Option Review → ℕ → Bool
review_after none at = false
review_after (some r) at = ltb at r.review_index

-- `ReviewedSinceAdoption`
unfoldable pub reviewed_since_adoption : Replay → ℤ → Bool
reviewed_since_adoption h seq = some_and (review_after h.review) (adopted_at seq h.decisions)

-- `AutoApproved`
unfoldable pub auto_approved : Replay → ℕ
auto_approved h =
    length (select (λ d. d.approved && str_eq d.source "policy" && not (is_final d)) h.decisions)

-- `TaskApproved`
unfoldable pub task_approved : Replay → Bool
task_approved h =
    any
      (λ d.
        d.approved && (str_eq d.source "task" || str_eq d.source "evidence") && not (is_final d))
      h.decisions

-- `Supervised`
abbrev pub is_supervised : Decision → Bool
is_supervised d =
    if is_final d || str_eq d.source "declared"
    then false
    else if str_eq d.source "orchestrator" && is_nil d.paths
    then false
    else true

unfoldable pub supervised : Replay → List Decision
supervised h = select is_supervised h.decisions

-- `Delivers`
unfoldable pub delivers : Replay → String → String → Bool
delivers h event commit' =
    any (λ d. str_eq d.delivery_event event && str_eq d.delivered.commit commit') h.deliveries

-- `Holds`
unfoldable pub holds : Replay → String → Bool
holds h entry = is_set entry && contains h.entries entry

abbrev first_with : ℤ → List Decision → Option Decision
first_with seq [] = none
first_with seq (d ∷ ds) = if eqb_ℤ d.seq seq then some d else first_with seq ds

-- `History.Decision`
unfoldable pub decision_at : Replay → ℤ → Option Decision
decision_at h seq = first_with seq h.decisions

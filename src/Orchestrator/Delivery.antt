-- ===== src/Orchestrator/Delivery.antt =====
-- src/internal/orchestrator/delivery.go: the seven conditions under which an away run delivers its change without
-- a person, judged on the run's history. `initiator_ok` is the check of the initiator's signature; the
-- sentences of the refusals are data.
pub mod Authorizes
pub mod Conditions
use st_air_case.Prelude.{
  ℕ, ◌+◌, ℤ, pos, eqb_ℤ, String, Bool, true, false, not, ◌&&◌, ◌||◌, Option, none, some, List, [],
  ◌∷◌, ◌++◌, map, any, length, ltb, ◌==◌, str_eq, if◌then◌else◌,
}
use st_air_case.Domain.{action_shell_exec, action_tool_call}
use st_air_case.History.Payload.{
  Bound, PolicySnapshot, InitiatorSigned, CheckRun, PhaseChecked, DeliveryAuthorized,
}
use st_air_case.History.State.{Replay, Decision}
use st_air_case.History.Queries.{approvals, parked}
use st_air_case.History.Refusals.{is_signed, digest_of, is_nil}
use st_air_case.Orchestrator.Bars.{Bar, Terms, matches_fold, person_bar}
use st_air_case.Orchestrator.Files.{sort_texts}

abbrev pub deliver_policy : String
deliver_policy = "policy"

abbrev pub mode_policy : String
mode_policy = "policy"

-- The terms that the conditions read.
pub record DeliveryTerms : Type 0 where
  pub bars : Terms
  pub deliver : String
  pub deliver_paths : List String
  pub check_commands : List String

-- `deliveryCase`; `files` has the digest of each approved path.
pub record DeliveryCase : Type 0 where
  pub terms : DeliveryTerms
  pub hist : Replay
  pub tree : String
  pub files : List (String × String)
  pub parked_live : ℕ
  pub on_task : Bool
  pub unreviewed : Bool
  pub at_base : Bool
  pub unchanged : Bool

-- Why a condition does not hold.
pub data Doubt : Type 0 where
  other_delivery unbound_terms unsigned : Doubt
  other_source : ℤ → Doubt
  task_approved model_approved nothing_approved : Doubt
  still_parked : Doubt
  no_paths : ℤ → Doubt
  outside_delivery : String → Doubt
  barred_path : String → Bar → Doubt
  not_checked checked_other_tree checks_failed other_checks : Doubt
  check_did_not_pass : String → Doubt
  bytes_differ : String → Doubt
  nothing_to_commit branch_moved : Doubt
  nothing_protected : Doubt
  nobody_signed bad_signature : Doubt

-- The first case that holds: a Go `switch` without a subject, and a chain of early returns.
unfoldable pub first_doubt : List (Bool × Doubt) → Option Doubt
first_doubt [] = none
first_doubt (c ∷ cs) = if c.0 then some c.1 else first_doubt cs

abbrev pub or_doubt : Option Doubt → Option Doubt → Option Doubt
or_doubt none b = b
or_doubt (some a) b = some a

-- 1: the bound terms say policy, and the policy was signed.
unfoldable pub signed_policy : DeliveryCase → Option Doubt
unfolding first_doubt
signed_policy c = first_doubt (
    (not (str_eq c.terms.deliver deliver_policy), other_delivery)
    ∷ (str_eq c.hist.bound.terms_sha256 "", unbound_terms)
    ∷ (not (is_signed c.hist.policy), unsigned)
    ∷ [])

abbrev pub is_rule : Decision → Bool
is_rule d =
    str_eq d.source "policy"
    || (str_eq d.source "declared"
        && (str_eq d.action_type action_shell_exec || str_eq d.action_type action_tool_call))

unfoldable pub other_approval : List Decision → Option Doubt
other_approval [] = none
other_approval (d ∷ ds) =
    if d.approved && not (is_rule d) then some (other_source d.seq) else other_approval ds

-- 2: only rules of the policy approved.
unfoldable pub only_rules : DeliveryCase → Option Doubt
unfolding other_approval first_doubt approvals
only_rules c = or_doubt (other_approval c.hist.decisions) (
    first_doubt (
      (c.on_task, task_approved)
      ∷ (c.unreviewed, model_approved)
      ∷ (is_nil (approvals c.hist) || is_nil c.files, nothing_approved)
      ∷ []))

-- 3: nothing was parked, `max` of the two counts.
unfoldable pub nothing_parked : DeliveryCase → Option Doubt
unfolding parked
nothing_parked c =
    if ltb 0 c.parked_live || ltb 0 (length (parked c.hist)) then some still_parked else none

unfoldable pub without_paths : List Decision → Option Doubt
without_paths [] = none
without_paths (d ∷ ds) = if is_nil d.paths then some (no_paths d.seq) else without_paths ds

unfoldable pub approved_paths : List Decision → List String
approved_paths [] = []
approved_paths (d ∷ ds) = d.paths ++ approved_paths ds

-- The keys of the Go map that a list of paths is put in.
unfoldable pub distinct : List String → List String
distinct [] = []
distinct (p ∷ ps) = let rest = distinct ps in if any (λ q. str_eq q p) rest then rest else p ∷ rest

module _ (path_match : String → String → Option Bool) (to_lower : String → String) where
  abbrev pub bar_doubt : String → Option Bar → Option Doubt
  bar_doubt p none = none
  bar_doubt p (some b) = some (barred_path p b)

  unfoldable pub path_doubt : DeliveryTerms → String → Option Doubt
  unfolding person_bar
  path_doubt t p =
      if not (matches_fold path_match to_lower t.deliver_paths p)
      then some (outside_delivery p)
      else bar_doubt p (person_bar path_match to_lower t.bars (p ∷ []))

  unfoldable pub paths_doubt : DeliveryTerms → List String → Option Doubt
  unfolding path_doubt
  paths_doubt t [] = none
  paths_doubt t (p ∷ ps) = or_doubt (path_doubt t p) (paths_doubt t ps)

  -- The paths that the chain records for the approvals, and those of the approved files.
  unfoldable pub all_paths : DeliveryCase → List String
  unfolding approvals approved_paths
  all_paths c = approved_paths (approvals c.hist) ++ map (λ (f : String × String). f.0) c.files

  -- 4: inside the delivery scope, clear of the sensitive and protected paths.
  unfoldable pub inside_bars : DeliveryCase → Option Doubt
  unfolding without_paths paths_doubt all_paths distinct sort_texts approvals
  inside_bars c =
      or_doubt (without_paths (approvals c.hist))
        (paths_doubt c.terms (sort_texts (distinct (all_paths c))))

-- The checks that ran against those of the terms, which are as many.
unfoldable pub run_doubt : List CheckRun → List String → Option Doubt
run_doubt [] cs = none
run_doubt (r ∷ rs) [] = none
run_doubt (r ∷ rs) (c ∷ cs) =
    if not (str_eq r.check_command c) || not (eqb_ℤ r.exit_code (pos 0))
    then some (check_did_not_pass c)
    else run_doubt rs cs

unfoldable pub digest_at : List (String × String) → String → String
digest_at [] p = ""
digest_at (f ∷ fs) p = if str_eq f.0 p then f.1 else digest_at fs p

abbrev pub has_path : List (String × String) → String → Bool
has_path fs p = any (λ (f : String × String). str_eq f.0 p) fs

-- `maps.Copy` of the files of each approval in turn: the last approval that names a path.
unfoldable pub recorded_at : List Decision → String → String
unfolding digest_at
recorded_at [] p = ""
recorded_at (d ∷ ds) p =
    let later = recorded_at ds p in
    if any (λ (e : Decision). has_path e.files p) ds then later else digest_at d.files p

unfoldable pub bytes_doubt : List Decision → List (String × String) → List String → Option Doubt
unfolding recorded_at digest_at
bytes_doubt ds files [] = none
bytes_doubt ds files (p ∷ ps) =
    if not (str_eq (recorded_at ds p) (digest_at files p))
    then some (bytes_differ p)
    else bytes_doubt ds files ps

-- The `switch` of the fifth condition.
unfoldable pub tree_doubt : DeliveryCase → Option Doubt
unfolding first_doubt
tree_doubt c =
    let check = c.hist.end.check in
    first_doubt (
      (c.hist.end.checked == 0, not_checked)
      ∷ (not (str_eq check.checked_tree c.tree), checked_other_tree)
      ∷ (not check.passed, checks_failed)
      ∷ (
        is_nil check.check_runs || not (length check.check_runs == length c.terms.check_commands),
        other_checks,
      )
      ∷ [])

unfoldable pub branch_doubt : DeliveryCase → Option Doubt
unfolding first_doubt
branch_doubt c = first_doubt ((c.unchanged, nothing_to_commit) ∷ (not c.at_base, branch_moved) ∷ [])

unfoldable pub recorded_doubt : DeliveryCase → Option Doubt
unfolding bytes_doubt sort_texts approvals
recorded_doubt c =
    bytes_doubt (approvals c.hist) c.files (sort_texts (map (λ (f : String × String). f.0) c.files))

-- 5: the checks passed on exactly the approved tree, which is as the chain records it.
unfoldable pub checked_tree_doubt : DeliveryCase → Option Doubt
unfolding tree_doubt run_doubt recorded_doubt branch_doubt
checked_tree_doubt c = or_doubt (tree_doubt c) (
    or_doubt (run_doubt c.hist.end.check.check_runs c.terms.check_commands)
      (or_doubt (recorded_doubt c) (branch_doubt c)))

-- 6: the protected paths are declared.
unfoldable pub protected_declared : DeliveryCase → Option Doubt
protected_declared c = if is_nil c.terms.bars.protected_paths then some nothing_protected else none

module _ (initiator_ok : Bound → InitiatorSigned → Bool) where
  abbrev pub initiator_doubt : Bound → Option InitiatorSigned → Option Doubt
  initiator_doubt b none = some nobody_signed
  initiator_doubt b (some i) = if initiator_ok b i then none else some bad_signature

  -- 7: the initiator signed.
  unfoldable pub initiator_signed : DeliveryCase → Option Doubt
  initiator_signed c = initiator_doubt c.hist.bound c.hist.initiator

  module _ (path_match : String → String → Option Bool) (to_lower : String → String) where
    -- `refusal`: the first of the seven conditions that does not hold.
    unfoldable pub delivery_refusal : DeliveryCase → Option Doubt
    unfolding signed_policy only_rules nothing_parked inside_bars checked_tree_doubt
        protected_declared initiator_signed
    delivery_refusal c = or_doubt (signed_policy c) (
        or_doubt (only_rules c) (
          or_doubt (nothing_parked c) (
            or_doubt (inside_bars path_match to_lower c) (
              or_doubt (checked_tree_doubt c)
                (or_doubt (protected_declared c) (initiator_signed c))))))

-- The authorization that `judgeDelivery` returns where nothing is doubtful.
unfoldable pub authorization : DeliveryCase → DeliveryAuthorized
authorization c = record {
  auth_checked = c.hist.end.checked_entry;
  auth_tree = c.tree;
  auth_terms = c.hist.bound.terms_sha256;
  auth_policy = digest_of c.hist.policy;
  auth_mode = mode_policy;
}

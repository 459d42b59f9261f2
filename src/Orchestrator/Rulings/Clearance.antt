-- ===== src/Orchestrator/Rulings/Clearance.antt =====
-- decide.go, `decide`: what holds of a proposal that is decided without a person.
use st_air_case.Prelude.{
  refl, ◌∙◌, ◌&&◌, suc, String, ◌≡◌, sym, subst, inl, inr, true, false, ◌&&◌, Option, none, some,
  List, [], arith, str_eq, if◌then◌else◌, Bool-cases,
}
use st_air_case.Domain.{YieldRequest, action_file_edit}
use st_air_case.GoLibrary.{GoLibrary}
use st_air_case.Drift.{Supervisor, Why}
use st_air_case.Drift
use st_air_case.Policy.{evaluate}
use st_air_case.Policy.Quotas.{within, check_limits}
use st_air_case.Orchestrator.Bars.{protected_bar, sensitive_bar, outside_scope}
use st_air_case.Orchestrator.Panel.{is_nil}
use st_air_case.Orchestrator.Deciders.{
  Setting, Deciders, Derived, Derivation, bad_path, not_applicable, too_large, derives, Found,
  Ruling, Settled, paths_of, facts_of, guards_of, open_ruling, human,
}
use st_air_case.Orchestrator.Rulings.{
  by_limits, project_bar, by_bars, supervise, rule_on, refusal, rule_derived, rule, escalate,
  decide,
}
use st_air_case.Orchestrator.Rulings.Keeping.{is_automatic, Keeps, by_policy-Keeps}

module _ (go : GoLibrary) (sha256_hex : String → String) where
  open go use {Score, to_lower, path_match}

  module _ (c : Setting Score) (found : Found) (req : YieldRequest Score) where
    -- Nothing sends the proposal to a person.
    abbrev Unbarred : Deciders → Ruling → Type 0
    Unbarred d rl =
        (check_limits c.engine.limits d.auto_approved d.total ≡ within)
        × (rl.drift_why ≡ [])
        × (rl.scope_why ≡ none)
        × (guards_of rl.next ≡ [])

    abbrev Automatic : Settled → Type 0
    Automatic o = is_automatic o.ruling.source ≡ true

    by_limits-Unbarred :
        (d : Deciders) (rl : Ruling)
        → Keeps rl (by_limits go sha256_hex c found req d rl)
          × (Automatic (by_limits go sha256_hex c found req d rl) → Unbarred d rl)
    unfolding by_limits human
    by_limits-Unbarred d rl =
        let k =
          by_policy-Keeps go sha256_hex c found req d rl
            (evaluate go c.engine req (facts_of rl.next)) in
        ground arith

    abbrev Cleared : Deciders → Ruling → Type 0
    Cleared d rl =
        Unbarred d rl
        × (protected_bar path_match to_lower c.terms.protected_paths (paths_of rl.next) ≡ none)
        × (project_bar go sha256_hex c found req (paths_of rl.next) ≡ none)

    by_bars-Cleared :
        (d : Deciders) (rl : Ruling)
        → Keeps rl (by_bars go sha256_hex c found req d rl)
          × (Automatic (by_bars go sha256_hex c found req d rl) → Cleared d rl)
    unfolding by_bars human
    by_bars-Cleared d rl = let (k, b) = by_limits-Unbarred d rl in ground arith

    -- What the drift supervisor, the run's scope, the limits, the guards and the bars say of a derived state.
    abbrev SupervisedOn : Deciders → Option Derived → Drift.Verdict → Type 0
    SupervisedOn d n v =
        (v.halt ≡ false)
        × (v.reasons ≡ [])
        × (outside_scope path_match to_lower c.terms.scope (paths_of n) ≡ none)
        × (check_limits c.engine.limits d.auto_approved d.total ≡ within)
        × (guards_of n ≡ [])
        × (protected_bar path_match to_lower c.terms.protected_paths (paths_of n) ≡ none)
        × (project_bar go sha256_hex c found req (paths_of n) ≡ none)

    supervise-SupervisedOn :
        (d : Deciders) (n : Option Derived) (s : Supervisor) (v : Drift.Verdict)
        → let o = supervise go sha256_hex c found req d (open_ruling n) (s, v) in
          (o.ruling.next ≡ n) × (Automatic o → SupervisedOn d n v)
    unfolding supervise
    supervise-SupervisedOn d n s v =
        let (k, b) =
          by_bars-Cleared (record d { supervisor = s })
            (record (open_ruling n) {
              drift_why = v.reasons;
              halt = v.halt;
              scope_why =
                  if is_nil v.reasons
                  then outside_scope path_match to_lower c.terms.scope (paths_of n)
                  else none;
            }) in
        ground arith

    -- The paths of a ruling are clear of everything that asks for a person.
    pub record IsClear (before : Deciders) (n : Option Derived) : Type 0 where
      pub no_drift : (Drift.check path_match before.supervisor (paths_of n)).1.reasons ≡ []
      pub no_halt : (Drift.check path_match before.supervisor (paths_of n)).1.halt ≡ false
      pub in_run_scope : outside_scope path_match to_lower c.terms.scope (paths_of n) ≡ none
      pub in_limits : check_limits c.engine.limits before.auto_approved (suc before.total) ≡ within
      pub unguarded : guards_of n ≡ []
      pub unprotected :
          protected_bar path_match to_lower c.terms.protected_paths (paths_of n) ≡ none
      pub not_sensitive :
          str_eq req.action_type action_file_edit ≡ true
          → sensitive_bar path_match to_lower c.terms.sensitive_paths (paths_of n) ≡ none

    rule_on-next :
        (d : Deciders) (n : Option Derived)
        → let o = rule_on go sha256_hex c found req d n in
          (o.ruling.next ≡ n)
          × (Automatic o → SupervisedOn d n (Drift.check path_match d.supervisor (paths_of n)).1)
    unfolding rule_on
    rule_on-next d n =
        let (s, v) = Drift.check path_match d.supervisor (paths_of n) in
        let (k, b) = supervise-SupervisedOn d n s v in ground arith

    project_bar-sensitive :
        (files : List String)
        → project_bar go sha256_hex c found req files ≡ none
        → str_eq req.action_type action_file_edit ≡ true
        → sensitive_bar path_match to_lower c.terms.sensitive_paths files ≡ none
    unfolding project_bar
    project_bar-sensitive files h e = rw e at h

    rule_on-IsClear :
        (t : Deciders) (n : Option Derived)
        → let o = rule_on go sha256_hex c found req (record t { total = suc t.total }) n in
          Automatic o → IsClear t o.ruling.next
    rule_on-IsClear t n auto =
        let (k, b) = rule_on-next (record t { total = suc t.total }) n in
        let (halt, why, scope, limits, guards, protected, project) = b auto in
        let at_n : IsClear t n = record {
          no_drift = why;
          no_halt = halt;
          in_run_scope = scope;
          in_limits = limits;
          unguarded = guards;
          unprotected = protected;
          not_sensitive = project_bar-sensitive (paths_of n) project;
        } in
        subst (IsClear t) (sym k) at_n

    rule_derived-IsClear :
        (t : Deciders) (der : Derivation)
        → let o = rule_derived go sha256_hex c found req (record t { total = suc t.total }) der in
          Automatic o → IsClear t o.ruling.next
    unfolding rule_derived refusal
    rule_derived-IsClear t (bad_path why) auto = cc auto
    rule_derived-IsClear t (not_applicable why) auto = cc auto
    rule_derived-IsClear t (too_large why) auto = cc auto
    rule_derived-IsClear t (derives n) auto = rule_on-IsClear t (some n) auto

    rule-IsClear :
        (t : Deciders)
        → Automatic (rule go sha256_hex c found req t)
        → IsClear t (rule go sha256_hex c found req t).ruling.next
    unfolding rule
    rule-IsClear t auto =
        elim (Bool-cases (str_eq req.action_type action_file_edit && c.has_approvals)) [
          | inl edits ↦ rw edits (rule_derived-IsClear t found.derivation (rw edits at auto))
          | inr other ↦ rw other (rule_on-IsClear t none (rw other at auto))
        ]

    escalate-Automatic :
        (o : Settled)
        → Automatic (escalate go sha256_hex c found req o)
        → Automatic o × (o.ruling.next ≡ (escalate go sha256_hex c found req o).ruling.next)
    unfolding escalate human
    escalate-Automatic o auto = ground arith

    -- A proposal that a rule of the policy, the agreed task, evidence or the models decide, without a
    -- person, is clear: its paths stay in the stories' scope and in the run's, hold no check's definition
    -- and, in a file edit, nothing sensitive; no guard is set off, the run is not halted, and no limit of
    -- the policy is reached.
    pub decide-IsClear :
        (t : Deciders)
        → is_automatic (decide go sha256_hex c found req t).ruling.source ≡ true
        → IsClear t (decide go sha256_hex c found req t).ruling.next
    unfolding decide
    decide-IsClear t auto =
        let (before, same) = escalate-Automatic (rule go sha256_hex c found req t) auto in
        subst (IsClear t) same (rule-IsClear t before)

    rule_derived-next :
        (d : Deciders) (der : Derivation)
        → let o = rule_derived go sha256_hex c found req d der in
          Automatic o → (n : Derived) × (der ≡ derives n) × (o.ruling.next ≡ some n)
    unfolding rule_derived refusal
    rule_derived-next d (bad_path why) auto = cc auto
    rule_derived-next d (not_applicable why) auto = cc auto
    rule_derived-next d (too_large why) auto = cc auto
    rule_derived-next d (derives n) auto = (n, refl, (rule_on-next d (some n)).0)

    rule-next :
        (t : Deciders)
        → (str_eq req.action_type action_file_edit && c.has_approvals) ≡ true
        → Automatic (rule go sha256_hex c found req t)
        → (n : Derived) × (found.derivation ≡ derives n)
          × ((rule go sha256_hex c found req t).ruling.next ≡ some n)
    unfolding rule
    rule-next t edits auto =
        rw edits
          (rule_derived-next (record t { total = suc t.total }) found.derivation (rw edits at auto))

    -- A file edit that is decided without a person is decided on the state that was derived from it.
    pub decide-next :
        (t : Deciders)
        → (str_eq req.action_type action_file_edit && c.has_approvals) ≡ true
        → is_automatic (decide go sha256_hex c found req t).ruling.source ≡ true
        → (n : Derived) × (found.derivation ≡ derives n)
          × ((decide go sha256_hex c found req t).ruling.next ≡ some n)
    unfolding decide
    decide-next t edits auto =
        let (before, same) = escalate-Automatic (rule go sha256_hex c found req t) auto in
        let (n, was, next) = rule-next t edits before in (n, was, sym same ∙ next)

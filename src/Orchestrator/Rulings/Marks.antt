-- ===== src/Orchestrator/Rulings/Marks.antt =====
-- decide.go: the marks by which the run knows that a person has to review the whole change.
use st_air_case.Prelude.{
  suc, String, ◌≡◌, refl, inl, inr, Bool, true, false, Option, none, some, List, arith,
  if◌then◌else◌, Option-cases,
}
use st_air_case.Prelude.{
  suc, String, ◌≡◌, refl, inl, inr, Bool, true, false, Option, none, some, List, arith,
  if◌then◌else◌, Option-cases,
}
use st_air_case.Domain.{YieldRequest}
use st_air_case.GoLibrary.{GoLibrary}
use st_air_case.Drift.{Supervisor, Why}
use st_air_case.Drift
use st_air_case.Policy.{PolicyDecision, evaluate}
use st_air_case.Orchestrator.Bars.{outside_scope}
use st_air_case.Orchestrator.Panel.{
  Validator, Note, Ruled, PanelDecision, decided, left_open, is_nil,
}
use st_air_case.Orchestrator.Panel.Unanimous.{decide-marks}
use st_air_case.Orchestrator.Deciders.{
  Source, task, evidence, validator, Setting, Deciders, Derived, Derivation, bad_path,
  not_applicable, too_large, derives, Found, Ruling, Settled, paths_of, facts_of, open_ruling,
  human, noted, auto_count,
}
use st_air_case.Orchestrator.Rulings.{
  after_panel, panel_on, ask_panel, after_evidence_panel, by_evidence, by_agreed_task, by_policy,
  by_limits, by_bars, supervise, rule_on, refusal, rule_derived, rule, escalate, decide,
}

abbrev pub is_shared : Source → Bool
is_shared task = true
is_shared evidence = true
is_shared _ = false

abbrev pub is_validator : Source → Bool
is_validator validator = true
is_validator _ = false

abbrev is_approval : PanelDecision → Bool
is_approval (decided true reasons) = true
is_approval _ = false

is_approval-decided :
    (v : Bool) (dec : PanelDecision)
    → ((reasons : List String) → dec ≡ decided true reasons → v ≡ true)
    → is_approval dec ≡ true
    → v ≡ true
is_approval-decided v (left_open note) h e = cc
is_approval-decided v (decided false reasons) h e = cc
is_approval-decided v (decided true reasons) h e = h reasons refl

abbrev pub is_unreviewed : Option Validator → Bool
is_unreviewed none = false
is_unreviewed (some v) = v.unreviewed

module _ (go : GoLibrary) (sha256_hex : String → String) where
  open go use {Score, to_lower, path_match}

  module _ (c : Setting Score) (found : Found) (req : YieldRequest Score) where
    -- What the agreed task, evidence or models approve is marked, and a mark stays.
    abbrev Marked : Deciders → Settled → Type 0
    Marked d o =
        (is_shared o.ruling.source ≡ true → o.ruling.approved ≡ true → o.after.task_approved ≡ true)
        × (is_validator o.ruling.source ≡ true
            → o.ruling.approved ≡ true
            → is_unreviewed o.after.panel ≡ true)
        × (d.task_approved ≡ true → o.after.task_approved ≡ true)
        × (is_unreviewed d.panel ≡ true → is_unreviewed o.after.panel ≡ true)

    noted-unreviewed : (v : Validator) (note : Note) → (noted v note).unreviewed ≡ v.unreviewed
    unfolding noted
    noted-unreviewed v note = ground arith

    after_panel-Marked :
        (d : Deciders) (rl : Ruling) (r : Ruled)
        → (is_approval r.decision ≡ true → r.after.unreviewed ≡ true)
        → (is_unreviewed d.panel ≡ true → r.after.unreviewed ≡ true)
        → Marked d (after_panel go sha256_hex c found req d rl r)
    unfolding after_panel human noted
    after_panel-Marked d rl r m k = ground arith

    after_evidence_panel-Marked :
        (d : Deciders) (rl : Ruling) (r : Ruled)
        → (is_unreviewed d.panel ≡ true → r.after.unreviewed ≡ true)
        → Marked d (after_evidence_panel go sha256_hex c found req d rl r)
    unfolding after_evidence_panel human noted
    after_evidence_panel-Marked d rl r k = ground arith

    human-Marked : (d : Deciders) (rl : Ruling) → Marked d (human c found d rl)
    unfolding human
    human-Marked d rl = ground arith

    panel_on-marks :
        (v : Validator)
        → ((reasons : List String)
            → (panel_on go sha256_hex c found req v).decision ≡ decided true reasons
            → (panel_on go sha256_hex c found req v).after.unreviewed ≡ true)
          × (v.unreviewed ≡ true → (panel_on go sha256_hex c found req v).after.unreviewed ≡ true)
    unfolding panel_on
    panel_on-marks v =
        decide-marks sha256_hex found.ask v req.action_type c.has_approvals found.unreadable

    ask_panel-Marked :
        (d : Deciders) (rl : Ruling) → Marked d (ask_panel go sha256_hex c found req d rl)
    unfolding ask_panel human
    ask_panel-Marked d rl = elim (Option-cases d.panel) [
      | inl none' ↦ ground (arith, human-Marked d rl)
      | inr (v, some') ↦
          let (m, k) = panel_on-marks v in
          let r = panel_on go sha256_hex c found req v in
          let w =
            after_panel-Marked d rl r (is_approval-decided r.after.unreviewed r.decision m)
              (λ u. k (rw some' at u)) in
          ground arith
    ]

    by_evidence-Marked :
        (d : Deciders) (rl : Ruling) → Marked d (by_evidence go sha256_hex c found req d rl)
    unfolding by_evidence human
    by_evidence-Marked d rl = elim (Option-cases d.panel) [
      | inl none' ↦ ground (arith, human-Marked d rl)
      | inr (v, some') ↦
          let (m, k) = panel_on-marks v in
          let w =
            after_evidence_panel-Marked d rl (panel_on go sha256_hex c found req v)
              (λ u. k (rw some' at u)) in
          ground arith
    ]

    by_agreed_task-Marked :
        (d : Deciders) (rl : Ruling) → Marked d (by_agreed_task go sha256_hex c found req d rl)
    unfolding by_agreed_task
    by_agreed_task-Marked d rl = ground (arith, by_evidence-Marked d rl, ask_panel-Marked d rl)

    by_policy-Marked :
        (d : Deciders) (rl : Ruling) (dec : PolicyDecision)
        → Marked d (by_policy go sha256_hex c found req d rl dec)
    unfolding by_policy auto_count
    by_policy-Marked d rl dec = ground (arith, by_agreed_task-Marked d rl)

    by_limits-Marked :
        (d : Deciders) (rl : Ruling) → Marked d (by_limits go sha256_hex c found req d rl)
    unfolding by_limits human
    by_limits-Marked d rl =
        let k = by_policy-Marked d rl (evaluate go c.engine req (facts_of rl.next)) in
        ground (arith, human-Marked d rl)

    by_bars-Marked :
        (d : Deciders) (rl : Ruling) → Marked d (by_bars go sha256_hex c found req d rl)
    unfolding by_bars human
    by_bars-Marked d rl = ground (arith, by_limits-Marked d rl)

    supervise-Marked :
        (d : Deciders) (rl : Ruling) (s : Supervisor) (v : Drift.Verdict)
        → Marked d (supervise go sha256_hex c found req d rl (s, v))
    unfolding supervise
    supervise-Marked d rl s v =
        let k =
          by_bars-Marked (record d { supervisor = s })
            (record rl {
              drift_why = v.reasons;
              halt = v.halt;
              scope_why =
                  if is_nil v.reasons
                  then outside_scope path_match to_lower c.terms.scope (paths_of rl.next)
                  else none;
            }) in
        ground arith

    rule_on-Marked :
        (d : Deciders) (n : Option Derived) → Marked d (rule_on go sha256_hex c found req d n)
    unfolding rule_on
    rule_on-Marked d n =
        let (s, v) = Drift.check path_match d.supervisor (paths_of n) in
        let k = supervise-Marked d (open_ruling n) s v in ground arith

    rule_derived-Marked :
        (d : Deciders) (der : Derivation) → Marked d (rule_derived go sha256_hex c found req d der)
    unfolding rule_derived refusal
    rule_derived-Marked d (bad_path why) = ground arith
    rule_derived-Marked d (not_applicable why) = ground arith
    rule_derived-Marked d (too_large why) = ground arith
    rule_derived-Marked d (derives n) = rule_on-Marked d (some n)

    rule-Marked : (d : Deciders) → Marked d (rule go sha256_hex c found req d)
    unfolding rule
    rule-Marked d =
        let t = record d { total = suc d.total } in
        let k = rule_derived-Marked t found.derivation in
        let l = rule_on-Marked t none in ground arith

    escalate-Marked :
        (d : Deciders) (o : Settled) → Marked d o → Marked d (escalate go sha256_hex c found req o)
    unfolding escalate human
    escalate-Marked d o h = ground arith

    -- An approval by the agreed task or on evidence marks the deciders, an approval by the models marks the
    -- panel, and no proposal, however it is decided, takes either mark away.
    pub decide-Marked :
        (d : Deciders)
        → let o = decide go sha256_hex c found req d in
          (is_shared o.ruling.source ≡ true
            → o.ruling.approved ≡ true
            → o.after.task_approved ≡ true)
          × (is_validator o.ruling.source ≡ true
              → o.ruling.approved ≡ true
              → is_unreviewed o.after.panel ≡ true)
          × (d.task_approved ≡ true → o.after.task_approved ≡ true)
          × (is_unreviewed d.panel ≡ true → is_unreviewed o.after.panel ≡ true)
    unfolding decide
    decide-Marked d = escalate-Marked d (rule go sha256_hex c found req d) (rule-Marked d)

-- ===== src/Orchestrator/Rulings/Away.antt =====
-- decide.go with nobody there: an away run asks no person, and what would have gone to one is parked.
use st_air_case.Prelude.{
  suc, String, ◌≡◌, Bool, true, false, Option, none, some, arith, if◌then◌else◌,
}
use st_air_case.Domain.{YieldRequest}
use st_air_case.GoLibrary.{GoLibrary}
use st_air_case.Drift.{Supervisor, Why}
use st_air_case.Drift
use st_air_case.Policy.{PolicyDecision}
use st_air_case.Orchestrator.Panel.{Ruled}
use st_air_case.Orchestrator.Deciders.{
  Source, parked, Setting, Deciders, Derived, Derivation, bad_path, not_applicable, too_large,
  derives, Found, Ruling, Settled, paths_of, is_operator, open_ruling, human, noted, auto_count,
}
use st_air_case.Orchestrator.Rulings.{
  after_panel, ask_panel, after_evidence_panel, by_evidence, by_agreed_task, by_policy, by_limits,
  by_bars, supervise, rule_on, refusal, rule_derived, rule, escalate, decide,
}

abbrev pub is_parked : Source → Bool
is_parked parked = true
is_parked _ = false

module _ (go : GoLibrary) (sha256_hex : String → String) where
  open go use {Score, to_lower, path_match}

  module _ (c : Setting Score) (found : Found) (req : YieldRequest Score)
      (away : c.away ≡ true) where
    -- Nobody is asked; a proposal that is parked is counted and not approved.
    abbrev Unattended : Deciders → Settled → Type 0
    Unattended d o =
        (is_operator o.ruling.source ≡ false)
        × (o.after.parked_count
            ≡ (if is_parked o.ruling.source then suc d.parked_count else d.parked_count))
        × (is_parked o.ruling.source ≡ true → o.ruling.approved ≡ false)

    after_panel-Unattended :
        (d : Deciders) (rl : Ruling) (r : Ruled)
        → Unattended d (after_panel go sha256_hex c found req d rl r)
    unfolding after_panel human noted
    after_panel-Unattended d rl r = ground (arith)

    ask_panel-Unattended :
        (d : Deciders) (rl : Ruling) → Unattended d (ask_panel go sha256_hex c found req d rl)
    unfolding ask_panel human
    ask_panel-Unattended d rl = ground (arith, after_panel-Unattended d rl)

    after_evidence_panel-Unattended :
        (d : Deciders) (rl : Ruling) (r : Ruled)
        → Unattended d (after_evidence_panel go sha256_hex c found req d rl r)
    unfolding after_evidence_panel human noted
    after_evidence_panel-Unattended d rl r = ground (arith)

    by_evidence-Unattended :
        (d : Deciders) (rl : Ruling) → Unattended d (by_evidence go sha256_hex c found req d rl)
    unfolding by_evidence human
    by_evidence-Unattended d rl = ground (arith, after_evidence_panel-Unattended d rl)

    by_agreed_task-Unattended :
        (d : Deciders) (rl : Ruling) → Unattended d (by_agreed_task go sha256_hex c found req d rl)
    unfolding by_agreed_task
    by_agreed_task-Unattended d rl =
        ground (arith, by_evidence-Unattended d rl, ask_panel-Unattended d rl)

    by_policy-Unattended :
        (d : Deciders) (rl : Ruling) (dec : PolicyDecision)
        → Unattended d (by_policy go sha256_hex c found req d rl dec)
    unfolding by_policy auto_count
    by_policy-Unattended d rl dec = ground (arith, by_agreed_task-Unattended d rl)

    by_limits-Unattended :
        (d : Deciders) (rl : Ruling) → Unattended d (by_limits go sha256_hex c found req d rl)
    unfolding by_limits human
    by_limits-Unattended d rl = ground (arith, by_policy-Unattended d rl)

    by_bars-Unattended :
        (d : Deciders) (rl : Ruling) → Unattended d (by_bars go sha256_hex c found req d rl)
    unfolding by_bars human
    by_bars-Unattended d rl = ground (arith, by_limits-Unattended d rl)

    supervise-Unattended :
        (d : Deciders) (rl : Ruling) (s : Supervisor) (v : Drift.Verdict)
        → Unattended d (supervise go sha256_hex c found req d rl (s, v))
    unfolding supervise
    supervise-Unattended d rl s v =
        let k = λ (r : Ruling). by_bars-Unattended (record d { supervisor = s }) r in
        ground (arith, k)

    rule_on-Unattended :
        (d : Deciders) (n : Option Derived) → Unattended d (rule_on go sha256_hex c found req d n)
    unfolding rule_on
    rule_on-Unattended d n =
        let (s, v) = Drift.check path_match d.supervisor (paths_of n) in
        let k = supervise-Unattended d (open_ruling n) s v in ground arith

    rule_derived-Unattended :
        (d : Deciders) (der : Derivation)
        → Unattended d (rule_derived go sha256_hex c found req d der)
    unfolding rule_derived refusal
    rule_derived-Unattended d (bad_path why) = ground arith
    rule_derived-Unattended d (not_applicable why) = ground arith
    rule_derived-Unattended d (too_large why) = ground arith
    rule_derived-Unattended d (derives n) = rule_on-Unattended d (some n)

    rule-Unattended : (d : Deciders) → Unattended d (rule go sha256_hex c found req d)
    unfolding rule
    rule-Unattended d =
        let t = record d { total = suc d.total } in
        let k = rule_derived-Unattended t found.derivation in
        let l = rule_on-Unattended t none in ground arith

    escalate-Unattended :
        (d : Deciders) (o : Settled)
        → Unattended d o
        → Unattended d (escalate go sha256_hex c found req o)
    unfolding escalate human
    escalate-Unattended d o h = ground arith

    -- While the owner is away no proposal is decided by a person, whatever the policy, the models, the
    -- checks and the signal say; the proposals that end as parked are exactly those that are counted as
    -- such, and none of them is approved.
    pub decide-Unattended :
        (d : Deciders)
        → let o = decide go sha256_hex c found req d in
          (is_operator o.ruling.source ≡ false)
          × (o.after.parked_count
              ≡ (if is_parked o.ruling.source then suc d.parked_count else d.parked_count))
          × (is_parked o.ruling.source ≡ true → o.ruling.approved ≡ false)
    unfolding decide
    decide-Unattended d =
        escalate-Unattended d (rule go sha256_hex c found req d) (rule-Unattended d)

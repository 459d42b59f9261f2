-- ===== src/Orchestrator/Rulings/Counters.antt =====
-- decide.go: the counters that the limits of the policy are about.
use st_air_case.Prelude.{
  ◌&&◌, true, false, if◌then◌else◌, Bool, suc, String, ◌≡◌, ◌⊎◌, inl, inr, Option, none, some,
  arith,
}
use st_air_case.Domain.{YieldRequest}
use st_air_case.GoLibrary.{GoLibrary}
use st_air_case.Drift.{Supervisor, Why}
use st_air_case.Drift
use st_air_case.Policy.{PolicyDecision}
use st_air_case.Policy.Quotas.{within, check_limits, check_limits_iff}
use st_air_case.Orchestrator.Panel.{Ruled}
use st_air_case.Orchestrator.Deciders.{
  Source, policy, Setting, Deciders, Derived, Derivation, bad_path, not_applicable, too_large,
  derives, Found, Ruling, Settled, paths_of, open_ruling, human, noted, auto_count,
}
use st_air_case.Orchestrator.Rulings.{
  after_panel, ask_panel, after_evidence_panel, by_evidence, by_agreed_task, by_policy, by_limits,
  by_bars, supervise, rule_on, refusal, rule_derived, rule, escalate, decide,
}
use st_air_case.Plan.RunLimits.{Permits}

abbrev is_rule : Source → Bool
is_rule policy = true
is_rule _ = false

-- A rule of the policy approved.
abbrev pub by_rule : Settled → Bool
by_rule o = is_rule o.ruling.source && o.ruling.approved

module _ (go : GoLibrary) (sha256_hex : String → String) where
  open go use {Score, to_lower, path_match}

  module _ (c : Setting Score) (found : Found) (req : YieldRequest Score) where
    -- The proposals stay counted; what a rule approves is counted once, and nothing else is.
    abbrev Counted : Deciders → Settled → Type 0
    Counted d o =
        (o.after.total ≡ d.total)
        × (o.after.auto_approved ≡ (if by_rule o then suc d.auto_approved else d.auto_approved))

    after_panel-Counted :
        (d : Deciders) (rl : Ruling) (r : Ruled)
        → Counted d (after_panel go sha256_hex c found req d rl r)
    unfolding after_panel human noted
    after_panel-Counted d rl r = ground (arith)

    ask_panel-Counted :
        (d : Deciders) (rl : Ruling) → Counted d (ask_panel go sha256_hex c found req d rl)
    unfolding ask_panel human
    ask_panel-Counted d rl = ground (arith, after_panel-Counted d rl)

    after_evidence_panel-Counted :
        (d : Deciders) (rl : Ruling) (r : Ruled)
        → Counted d (after_evidence_panel go sha256_hex c found req d rl r)
    unfolding after_evidence_panel human noted
    after_evidence_panel-Counted d rl r = ground (arith)

    by_evidence-Counted :
        (d : Deciders) (rl : Ruling) → Counted d (by_evidence go sha256_hex c found req d rl)
    unfolding by_evidence human
    by_evidence-Counted d rl = ground (arith, after_evidence_panel-Counted d rl)

    by_agreed_task-Counted :
        (d : Deciders) (rl : Ruling) → Counted d (by_agreed_task go sha256_hex c found req d rl)
    unfolding by_agreed_task
    by_agreed_task-Counted d rl = ground (arith, by_evidence-Counted d rl, ask_panel-Counted d rl)

    by_policy-Counted :
        (d : Deciders) (rl : Ruling) (dec : PolicyDecision)
        → Counted d (by_policy go sha256_hex c found req d rl dec)
    unfolding by_policy auto_count
    by_policy-Counted d rl dec = ground (arith, by_agreed_task-Counted d rl)

    -- As above, where a rule approves only with room below the limits.
    abbrev Grows : Deciders → Settled → Type 0
    Grows d o =
        Counted d o
        × (by_rule o ≡ true → check_limits c.engine.limits d.auto_approved d.total ≡ within)

    by_limits-Grows :
        (d : Deciders) (rl : Ruling) → Grows d (by_limits go sha256_hex c found req d rl)
    unfolding by_limits human
    by_limits-Grows d rl = ground (arith, by_policy-Counted d rl)

    by_bars-Grows : (d : Deciders) (rl : Ruling) → Grows d (by_bars go sha256_hex c found req d rl)
    unfolding by_bars human
    by_bars-Grows d rl = ground (arith, by_limits-Grows d rl)

    supervise-Grows :
        (d : Deciders) (rl : Ruling) (s : Supervisor) (v : Drift.Verdict)
        → Grows d (supervise go sha256_hex c found req d rl (s, v))
    unfolding supervise
    supervise-Grows d rl s v =
        let k = λ (r : Ruling). by_bars-Grows (record d { supervisor = s }) r in ground (arith, k)

    rule_on-Grows :
        (d : Deciders) (n : Option Derived) → Grows d (rule_on go sha256_hex c found req d n)
    unfolding rule_on
    rule_on-Grows d n =
        let (s, v) = Drift.check path_match d.supervisor (paths_of n) in
        let k = supervise-Grows d (open_ruling n) s v in ground arith

    rule_derived-Grows :
        (d : Deciders) (der : Derivation) → Grows d (rule_derived go sha256_hex c found req d der)
    unfolding rule_derived refusal
    rule_derived-Grows d (bad_path why) = ground arith
    rule_derived-Grows d (not_applicable why) = ground arith
    rule_derived-Grows d (too_large why) = ground arith
    rule_derived-Grows d (derives n) = rule_on-Grows d (some n)

    rule-Grows :
        (d : Deciders) → Grows (record d { total = suc d.total }) (rule go sha256_hex c found req d)
    unfolding rule
    rule-Grows d =
        let t = record d { total = suc d.total } in
        let k = rule_derived-Grows t found.derivation in
        let l = rule_on-Grows t none in ground arith

    -- What is counted once a signal was heard, which can take an approval of a rule to a person.
    abbrev Limited : Deciders → Settled → Type 0
    Limited d o =
        (o.after.total ≡ d.total)
        × (by_rule o ≡ true → o.after.auto_approved ≡ suc d.auto_approved)
        × (c.has_signal ≡ false → by_rule o ≡ false → o.after.auto_approved ≡ d.auto_approved)
        × ((o.after.auto_approved ≡ d.auto_approved)
            ⊎ ((check_limits c.engine.limits d.auto_approved d.total ≡ within)
                × (o.after.auto_approved ≡ suc d.auto_approved)))

    escalate-Limited :
        (d : Deciders) (o : Settled) → Grows d o → Limited d (escalate go sha256_hex c found req o)
    unfolding escalate human
    escalate-Limited d o h = ground arith

    -- Each proposal is counted; an approval by a rule of the policy is counted as one, and without a signal
    -- nothing else is; and the count stays within the limit that the policy sets on it, if it was: a rule
    -- approves only while there is room for one more.
    pub decide-within_limit :
        (d : Deciders)
        → Permits c.engine.limits.max_auto_approved d.auto_approved
        → let o = decide go sha256_hex c found req d in
          (o.after.total ≡ suc d.total)
          × (by_rule o ≡ true → o.after.auto_approved ≡ suc d.auto_approved)
          × (c.has_signal ≡ false → by_rule o ≡ false → o.after.auto_approved ≡ d.auto_approved)
          × Permits c.engine.limits.max_auto_approved o.after.auto_approved
    unfolding decide
    decide-within_limit d room =
        let (counted, one, none_else, grows) =
          escalate-Limited (record d { total = suc d.total }) (rule go sha256_hex c found req d)
            (rule-Grows d) in
        let (f, g) = check_limits_iff c.engine.limits d.auto_approved (suc d.total) in
        (
          counted,
          one,
          none_else,
          elim grows [
            | inl same ↦ ground arith
            | inr (open', more) ↦ let (a, t) = f open' in ground arith
          ],
        )

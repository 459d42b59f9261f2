-- ===== src/Orchestrator/Rulings/Keeping.antt =====
-- decide.go: a step that decides leaves what was found out about the proposal as it was.
use st_air_case.Prelude.{String, ◌≡◌, Bool, true, false, arith}
use st_air_case.Domain.{YieldRequest}
use st_air_case.GoLibrary.{GoLibrary}
use st_air_case.Policy.{PolicyDecision}
use st_air_case.Orchestrator.Panel.{Ruled}
use st_air_case.Orchestrator.Deciders.{
  Source, policy, task, evidence, validator, Setting, Deciders, Found, Ruling, Settled, human,
}
use st_air_case.Orchestrator.Rulings.{
  after_panel, ask_panel, after_evidence_panel, by_evidence, by_agreed_task, by_policy,
}

-- A source that decides without a person, by rules, the agreed task, evidence or models.
abbrev pub is_automatic : Source → Bool
is_automatic policy = true
is_automatic task = true
is_automatic evidence = true
is_automatic validator = true
is_automatic _ = false

-- What a step leaves as it was in a ruling.
abbrev pub Keeps : Ruling → Settled → Type 0
Keeps rl o =
    (o.ruling.next ≡ rl.next)
    × (o.ruling.drift_why ≡ rl.drift_why)
    × (o.ruling.scope_why ≡ rl.scope_why)
    × (o.ruling.halt ≡ rl.halt)

module _ (go : GoLibrary) (sha256_hex : String → String) where
  open go use {Score, to_lower, path_match}

  module _ (c : Setting Score) (found : Found) (req : YieldRequest Score) where
    pub human-Keeps :
        (d : Deciders) (rl : Ruling)
        → Keeps rl (human c found d rl) × (is_automatic (human c found d rl).ruling.source ≡ false)
    unfolding human
    human-Keeps d rl = ground arith

    after_panel-Keeps :
        (d : Deciders) (rl : Ruling) (r : Ruled)
        → Keeps rl (after_panel go sha256_hex c found req d rl r)
    unfolding after_panel human
    after_panel-Keeps d rl r = ground arith

    ask_panel-Keeps :
        (d : Deciders) (rl : Ruling) → Keeps rl (ask_panel go sha256_hex c found req d rl)
    unfolding ask_panel human
    ask_panel-Keeps d rl = ground (arith, human-Keeps d rl, after_panel-Keeps d rl)

    after_evidence_panel-Keeps :
        (d : Deciders) (rl : Ruling) (r : Ruled)
        → Keeps rl (after_evidence_panel go sha256_hex c found req d rl r)
    unfolding after_evidence_panel human
    after_evidence_panel-Keeps d rl r = ground arith

    by_evidence-Keeps :
        (d : Deciders) (rl : Ruling) → Keeps rl (by_evidence go sha256_hex c found req d rl)
    unfolding by_evidence human
    by_evidence-Keeps d rl = ground (arith, after_evidence_panel-Keeps d rl)

    by_agreed_task-Keeps :
        (d : Deciders) (rl : Ruling) → Keeps rl (by_agreed_task go sha256_hex c found req d rl)
    unfolding by_agreed_task
    by_agreed_task-Keeps d rl = ground (arith, by_evidence-Keeps d rl, ask_panel-Keeps d rl)

    pub by_policy-Keeps :
        (d : Deciders) (rl : Ruling) (dec : PolicyDecision)
        → Keeps rl (by_policy go sha256_hex c found req d rl dec)
    unfolding by_policy
    by_policy-Keeps d rl dec = ground (arith, by_agreed_task-Keeps d rl)

-- ===== src/Orchestrator/Rulings.antt =====
-- decide.go, `rule` and `decide`: the order in which a proposal is offered to those who may decide it, one
-- function for each step, which goes on to the next where it does not decide.
pub mod Keeping
pub mod Clearance
pub mod Away
pub mod Counters
pub mod Marks
use st_air_case.Prelude.{
  ℕ, suc, String, Bool, true, false, not, ◌&&◌, ◌||◌, Option, none, some, List, [], ◌∷◌, any,
  str_eq, if◌then◌else◌,
}
use st_air_case.Domain.{
  YieldRequest, ProposedEdit, action_file_edit, action_shell_exec, action_tool_call,
}
use st_air_case.GoLibrary.{GoLibrary}
use st_air_case.Drift.{Supervisor, Why}
use st_air_case.Drift
use st_air_case.Policy.{Engine, Facts, PolicyDecision, evaluate}
use st_air_case.Policy.Quotas.{Exhausted, within, check_limits}
use st_air_case.Orchestrator.Files.{FileError}
use st_air_case.Orchestrator.Bars.{Bar, Terms, protected_bar, sensitive_bar, outside_scope}
use st_air_case.Orchestrator.Panel.{
  Validator, Answer, Note, silent, ValidatorVote, Ruled, PanelDecision, left_open, decided,
  human_decided, is_nil,
}
use st_air_case.Orchestrator.Panel
use st_air_case.Orchestrator.Deciders.{
  Deciders, Derivation, Derived, Found, ReviewNote, Ruling, Setting, Settled, Source, auto_count,
  bad_path, barred, contains, declared, derives, drift, evidence, facts_of, guards_of, human,
  is_operator, is_some, is_within, no_evidence, not_applicable, noted, nothing_said, only_edit,
  open_ruling, operator, orchestrator, panel_says, parked, paths_of, policy, signalled, task,
  too_large, validator,
}

module _ (go : GoLibrary) (sha256_hex : String → String) where
  open go use {Score, to_lower, path_match}

  module _ (c : Setting Score) (found : Found) (req : YieldRequest Score) where
    -- The last step of `rule`: the models decide, or a person does with their note.
    unfoldable pub after_panel : Deciders → Ruling → Ruled → Settled
    unfolding human noted
    after_panel d rl r = elim r.decision [
      | decided approved reasons ↦ record {
        after = record d { panel = some r.after };
        ruling = record rl { source = validator; approved = approved; votes = r.votes };
      }
      | left_open note ↦
          human c found (record d { panel = some (noted r.after note) })
            (record rl { votes = r.votes; review = panel_says note })
    ]

    -- The models of the validator, asked about this proposal.
    unfoldable pub panel_on : Validator → Ruled
    panel_on v =
        Panel.decide sha256_hex found.ask v req.action_type c.has_approvals found.unreadable

    unfoldable pub ask_panel : Deciders → Ruling → Settled
    unfolding after_panel panel_on human
    ask_panel d rl = elim d.panel [
      | none ↦ human c found d rl
      | some v ↦ after_panel d rl (panel_on v)
    ]

    -- What follows in `onEvidence` once the models have answered.
    unfoldable pub after_evidence_panel : Deciders → Ruling → Ruled → Settled
    unfolding human noted
    after_evidence_panel d rl r = elim r.decision [
      | decided true reasons ↦ record {
        after = record d { panel = some r.after; task_approved = true };
        ruling = record rl { source = evidence; approved = true; votes = r.votes };
      }
      | decided false reasons ↦ record {
        after = record d { panel = some r.after };
        ruling = record rl { source = validator; approved = false; votes = r.votes };
      }
      | left_open note ↦
          human c found (record d { panel = some (noted r.after note) })
            (record rl { votes = r.votes; review = panel_says note })
    ]

    unfoldable pub by_evidence : Deciders → Ruling → Settled
    unfolding after_evidence_panel panel_on human
    by_evidence d rl = elim found.checks_failed [
      | some failed ↦ human c found d (record rl { review = no_evidence failed })
      | none ↦ elim d.panel [
        | none ↦ record {
          after = record d { task_approved = true };
          ruling = record rl { source = evidence; approved = true };
        }
        | some v ↦ after_evidence_panel d rl (panel_on v)
      ]
    ]

    unfoldable pub by_agreed_task : Deciders → Ruling → Settled
    unfolding by_evidence ask_panel
    by_agreed_task d rl =
        if c.by_task && (str_eq req.action_type action_file_edit && is_some rl.next)
        then if c.on_evidence then by_evidence d rl else record {
          after = record d { task_approved = true };
          ruling = record rl { source = task; approved = true };
        }
        else ask_panel d rl

    unfoldable pub by_policy : Deciders → Ruling → PolicyDecision → Settled
    unfolding by_agreed_task auto_count
    by_policy d rl dec =
        if dec.matched
        then record {
          after = record d { auto_approved = auto_count dec d.auto_approved };
          ruling = record rl { source = policy; approved = dec.approved };
        }
        else by_agreed_task d rl

    -- The session's limits, drift and the guards send a proposal to a person before any rule.
    unfoldable pub by_limits : Deciders → Ruling → Settled
    unfolding by_policy human
    by_limits d rl =
        if is_within (check_limits c.engine.limits d.auto_approved d.total)
          && (is_nil rl.drift_why && (not (is_some rl.scope_why) && is_nil (guards_of rl.next)))
        then by_policy d rl (evaluate go c.engine req (facts_of rl.next))
        else human c found d rl

    unfoldable pub project_bar : List String → Option Bar
    project_bar files =
        if str_eq req.action_type action_file_edit
        then sensitive_bar path_match to_lower c.terms.sensitive_paths files
        else none

    unfoldable pub by_bars : Deciders → Ruling → Settled
    unfolding by_limits project_bar human
    by_bars d rl =
        elim (protected_bar path_match to_lower c.terms.protected_paths (paths_of rl.next)) [
          | some why ↦ human c found d (record rl { review = barred why })
          | none ↦ elim (project_bar (paths_of rl.next)) [
            | some why ↦ human c found d (record rl { review = barred why })
            | none ↦ by_limits d rl
          ]
        ]

    -- Drift supervision, which may stop the run; the run's own scope narrows the stories'.
    unfoldable pub supervise : Deciders → Ruling → Supervisor × Drift.Verdict → Settled
    unfolding by_bars
    supervise d rl (s, v) =
        let rl' = record rl {
          drift_why = v.reasons;
          halt = v.halt;
          scope_why =
              if is_nil v.reasons
              then outside_scope path_match to_lower c.terms.scope (paths_of rl.next)
              else none;
        } in
        let d' = record d { supervisor = s } in
        if v.halt
        then record { after = d'; ruling = record rl' { source = drift; approved = false } }
        else by_bars d' rl'

    unfoldable pub is_declared_command : ProposedEdit → Bool
    is_declared_command e =
        contains c.declared_commands e.replace_block && (str_eq e.file "." || str_eq e.file "")

    unfoldable pub is_declared : Bool
    unfolding is_declared_command
    is_declared =
        c.away
        && ((str_eq req.action_type action_shell_exec
              && only_edit is_declared_command req.proposed_edits)
            || (str_eq req.action_type action_tool_call
                && only_edit (λ (e : ProposedEdit). contains c.declared_tools e.file)
                    req.proposed_edits))

    -- `rule` behind the derivation of the proposal's state.
    unfoldable pub rule_on : Deciders → Option Derived → Settled
    unfolding is_declared supervise
    rule_on d n =
        if is_declared
        then record {
          after = d;
          ruling = record (open_ruling n) { source = declared; approved = true };
        }
        else supervise d (open_ruling n) (Drift.check path_match d.supervisor (paths_of n))

    unfoldable pub refusal : Deciders → Option FileError → Settled
    refusal d escape = record {
      after = d;
      ruling = record (open_ruling none) { refused = true; path_escape = escape };
    }

    unfoldable pub rule_derived : Deciders → Derivation → Settled
    unfolding rule_on refusal
    rule_derived d (bad_path why) = refusal d (some why)
    rule_derived d (not_applicable why) = refusal d none
    rule_derived d (too_large why) = refusal d none
    rule_derived d (derives n) = rule_on d (some n)

    unfoldable pub rule : Deciders → Settled
    unfolding rule_derived rule_on
    rule d0 =
        let d = record d0 { total = suc d0.total } in
        if str_eq req.action_type action_file_edit && c.has_approvals
        then rule_derived d found.derivation
        else rule_on d none

    -- A signal can only turn an automatic approval into a person's decision.
    unfoldable pub escalate : Settled → Settled
    unfolding human
    escalate o =
        if c.has_signal
          && (o.ruling.approved && (not (is_operator o.ruling.source) && is_some o.ruling.next))
        then elim found.signal_says [
          | none ↦ o
          | some why ↦ human c found o.after (record (o.ruling) { review = signalled why })
        ]
        else o

    unfoldable pub decide : Deciders → Settled
    unfolding escalate rule
    decide d = escalate (rule d)

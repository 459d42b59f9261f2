-- ===== src/Policy.antt =====
-- src/internal/policy/engine.go: rules and limits, and how a proposal is decided by them.
pub mod Evaluation
pub mod Conditions
pub mod Quotas
pub mod Loading
pub mod Deciding
mod Examples
use Prim.Native.String.{◌++◌ as str_append}
use st_air_case.Prelude.{
  ℕ, zero, suc, ℤ, pos, pos_part, ltb_ℤ, eqb_ℤ, String, Bool, true, false, not, ◌&&◌, ◌||◌, Option,
  none, some, List, [], ◌∷◌, map, any, all, length, ltb, leb, str_eq, starts_with, if◌then◌else◌,
}
use st_air_case.Domain.{YieldRequest, ProposedEdit, action_shell_exec, action_tool_call}
use st_air_case.GoLibrary.{GoLibrary, ext}
use st_air_case.Glob.{match_any_fold, valid_glob, match_any}
use st_air_case.Plan.RunLimits.{stricter, tighter}
use st_air_case.Plan.RunLimits

pub record Limits : Type 0 where
  pub max_auto_approved : ℤ
  pub max_total_yields : ℤ
  pub run : RunLimits.Limits

unfoldable pub tighter_policy : Limits → Limits → Limits
tighter_policy l o = record {
  max_auto_approved = stricter l.max_auto_approved o.max_auto_approved;
  max_total_yields = stricter l.max_total_yields o.max_total_yields;
  run = tighter l.run o.run;
}

abbrev pub effect_approve : String
effect_approve = "approve"

abbrev pub effect_reject : String
effect_reject = "reject"

pub record Rule (Score : Type 0) : Type 0 where
  pub action_types : List String
  pub min_confidence : Score
  pub allowed_extensions : List String
  pub agent_names : List String
  pub paths : List String
  pub max_lines : ℤ
  pub max_files : ℤ
  pub new_files_only : Bool
  pub no_deletions : Bool
  pub effect : String

pub record File : Type 0 where
  pub path : String
  pub is_new : Bool
  pub deleted : Bool
  pub lines : ℕ

-- What is derived from a proposal.
pub record Facts : Type 0 where
  pub files : List File
  pub total_lines : ℕ

pub record Engine (Score : Type 0) : Type 0 where
  pub engine_version : ℤ
  pub rules : List (Rule Score)
  pub limits : Limits
  pub allow_blanket_deny : Bool

-- The text of a decision: which rule decided, or that none did; `unexplained` is "".
pub data Reason : Type 0 where
  unexplained no_matching_rule : Reason
  auto_approved auto_rejected : ℕ → Reason

pub record PolicyDecision : Type 0 where
  pub matched : Bool
  pub approved : Bool
  pub reason : Reason

abbrev pub is_nil {ℓ} : {A : Type ℓ} → List A → Bool
is_nil [] = true
is_nil (x ∷ xs) = false

unfoldable pub has_typed_condition : {Score : Type 0} → Rule Score → Bool
has_typed_condition r =
    not (is_nil r.paths)
    || (not (eqb_ℤ r.max_lines (pos 0))
        || (not (eqb_ℤ r.max_files (pos 0)) || (r.new_files_only || r.no_deletions)))

-- An action that only a person decides: a shell command or a call of a tool.
abbrev pub is_human_only : String → Bool
is_human_only action = str_eq action action_shell_exec || str_eq action action_tool_call

abbrev pub undecided : Reason → PolicyDecision
undecided why = record { matched = false; approved = false; reason = why }

-- What rule `i` decides; an effect that is absent approves.
unfoldable pub decide_by : {Score : Type 0} → ℕ → Rule Score → PolicyDecision
decide_by i r =
    if str_eq (if str_eq r.effect "" then effect_approve else r.effect) effect_approve
    then record { matched = true; approved = true; reason = auto_approved i }
    else record { matched = true; approved = false; reason = auto_rejected i }

module _ (go : GoLibrary) where
  open go use {Score, is_zero, at_least, to_lower, equal_fold, path_match}

  matches_agent_name : Rule Score → String → Bool
  matches_agent_name r name = is_nil r.agent_names || any (λ n. equal_fold n name) r.agent_names

  matches_action_type : Rule Score → String → Bool
  matches_action_type r action =
      is_nil r.action_types || any (λ t. equal_fold t action) r.action_types

  matches_confidence : Rule Score → Score → Bool
  matches_confidence r score = is_zero r.min_confidence || at_least score r.min_confidence

  -- The tests on one file in the loop of `matchesFacts`.
  file_passes : Rule Score → File → Bool
  file_passes r f =
      if not (is_nil r.paths) && not (match_any_fold path_match to_lower r.paths f.path)
      then false
      else if r.new_files_only && not f.is_new
      then false
      else if r.no_deletions && f.deleted
      then false
      else true

  unfoldable pub matches_facts : Rule Score → Facts → Bool
  unfolding file_passes
  matches_facts r f =
      if not (eqb_ℤ r.max_lines (pos 0)) && ltb_ℤ r.max_lines (pos f.total_lines)
      then false
      else if not (eqb_ℤ r.max_files (pos 0)) && ltb_ℤ r.max_files (pos (length f.files))
      then false
      else all (file_passes r) f.files

  -- A listed extension in lower case, with its dot.
  with_dot : String → String
  with_dot e = if starts_with (to_lower e) "." then to_lower e else str_append "." (to_lower e)

  matches_extensions : Rule Score → List ProposedEdit → Bool
  unfolding with_dot
  matches_extensions r edits =
      is_nil r.allowed_extensions
      || all
          (λ (e : ProposedEdit).
            any (λ a. str_eq (with_dot a) (to_lower (ext e.file))) r.allowed_extensions)
          edits

  -- The five conditions of a rule, each of which makes the loop of `Evaluate` go on.
  unfoldable pub rule_matches : Rule Score → YieldRequest Score → Facts → Bool
  unfolding matches_agent_name matches_action_type matches_confidence matches_extensions
  rule_matches r req facts =
      matches_agent_name r req.agent_name
      && (matches_action_type r req.action_type
          && (matches_confidence r req.confidence_score
              && (matches_extensions r req.proposed_edits && matches_facts r facts)))

  evaluate_from : ℕ → List (Rule Score) → YieldRequest Score → Facts → PolicyDecision
  evaluate_from i [] req facts = undecided no_matching_rule
  evaluate_from i (r ∷ rs) req facts =
      if rule_matches r req facts then decide_by i r else evaluate_from (suc i) rs req facts

  unfoldable pub evaluate : Engine Score → YieldRequest Score → Facts → PolicyDecision
  unfolding evaluate_from
  evaluate e req facts =
      if is_human_only req.action_type
      then undecided unexplained
      else evaluate_from 0 e.rules req facts

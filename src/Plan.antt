-- ===== src/Plan.antt =====
-- src/internal/plan/plan.go: a compiled plan, the limits it carries, and what makes it fail to run.
-- How a plan file is read is not modelled.
pub mod RunLimits
pub mod Provider
pub mod Validation
mod Examples
use st_air_case.Prelude.{
  ℕ, ℤ, String, Bool, true, false, not, ◌&&◌, ◌||◌, Option, none, some, List, [], ◌∷◌, ◌++◌, map,
  str_eq, any, if◌then◌else◌,
}
use RunLimits.{Limits}
use Provider.{secret_for}

abbrev pub version : ℕ
version = 2

pub record Agent : Type 0 where
  pub name : String
  pub role : String
  pub model : String
  pub tools : List String

pub record Edge : Type 0 where
  pub source : String
  pub target : String
  pub condition : String

pub record Review : Type 0 where
  pub ref : String
  pub commit : String
  pub by : String
  pub message : String

pub record Story : Type 0 where
  pub id : ℤ
  pub text : String
  pub allow : List String
  pub max_files : ℤ

-- `digest` and `raw`, which are set by reading and are not in the file, are not fields here.
pub record Plan : Type 0 where
  pub plan_version : ℕ
  pub case_id : ℤ
  pub topology_version : ℤ
  pub supervisor : String
  pub agents : List Agent
  pub edges : List Edge
  pub prd : String
  pub repo_context : String
  pub stories : List Story
  pub lessons : List String
  pub harness : String
  pub review : Option Review
  pub blueprint_hash : String
  pub limits : Limits

-- What `Validate` reports; each constructor is one of its messages.
pub data Problem : Type 0 where
  unknown_harness harness_with_agents review_commit : Problem
  no_provider : String → String → Problem
  unknown_tool : String → String → Problem
  unknown_supervisor : String → Problem
  unknown_source unknown_target : Edge → Problem

unfoldable pub is_end : String → Bool
is_end node = str_eq node "END" || str_eq node "__end__"

abbrev pub builtin_tools : List String
builtin_tools =
    "read_file" ∷ "list_dir" ∷ "request_edit" ∷ "create_file" ∷ "delete_file" ∷ "run_shell" ∷ []

abbrev pub harnesses : List String
harnesses = "claude-code" ∷ "codex" ∷ "gemini" ∷ "opencode" ∷ "review" ∷ []

abbrev pub contains : List String → String → Bool
contains xs s = any (λ x. str_eq x s) xs

-- `p.Review != nil && p.Review.Commit != ""`
unfoldable pub names_commit : Option Review → Bool
names_commit none = false
names_commit (some r) = not (str_eq r.commit "")

abbrev is_nil {ℓ} : {A : Type ℓ} → List A → Bool
is_nil [] = true
is_nil (x ∷ xs) = false

same : Bool → Bool → Bool
same true b = b
same false b = not b

validate_harness : Plan → List Problem
unfolding names_commit same
validate_harness p =
    if not (contains harnesses p.harness)
    then unknown_harness ∷ []
    else if not (is_nil p.agents) || not (is_nil p.edges) || not (str_eq p.supervisor "")
    then harness_with_agents ∷ []
    else if not (same (str_eq p.harness "review") (names_commit p.review))
    then review_commit ∷ []
    else []

-- `known`: the names of the agents.
abbrev pub known : Plan → String → Bool
known p s = any (λ (a : Agent). str_eq a.name s) p.agents

tool_problems : String → List String → List Problem
tool_problems agent [] = []
tool_problems agent (t ∷ ts) =
    if contains builtin_tools t
    then tool_problems agent ts
    else unknown_tool agent t ∷ tool_problems agent ts

agent_problems : List Agent → List Problem
unfolding tool_problems
agent_problems [] = []
agent_problems (a ∷ as') =
    (if str_eq (secret_for a.model) "" then no_provider a.name a.model ∷ [] else [])
    ++ (tool_problems a.name a.tools ++ agent_problems as')

edge_problems : Plan → List Edge → List Problem
unfolding is_end
edge_problems p [] = []
edge_problems p (e ∷ es) =
    (if known p e.source then [] else unknown_source e ∷ [])
    ++ ((if known p e.target || is_end e.target then [] else unknown_target e ∷ [])
        ++ edge_problems p es)

-- `Validate`: `[]` is its nil error.
unfoldable pub validate : Plan → List Problem
unfolding validate_harness agent_problems edge_problems
validate p =
    if not (str_eq p.harness "")
    then validate_harness p
    else agent_problems p.agents
      ++ ((if known p p.supervisor then [] else unknown_supervisor p.supervisor ∷ [])
          ++ edge_problems p p.edges)

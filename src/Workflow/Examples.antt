-- ===== src/Workflow/Examples.antt =====
-- Runs of a plan with a lead and a writer, who hands the work back.
use st_air_case.Prelude.{
  ℕ, pos, String, ◌≤◌, ◌≡◌, refl, true, false, none, some, Option, List, [], ◌∷◌, length, All,
  str_eq, Result, ok, ◌==◌, if◌then◌else◌, Bool,
}
use st_air_case.Plan.{Plan, Agent, validate, known, is_end}
use st_air_case.Plan.Provider.{has_slash, provider_for, secret_for}
use st_air_case.Workflow.{
  max_agent_steps, max_model_calls, Route, ToolCall, Message, Reply, Finished, run_graph,
  walk_graph, turn, heed, tool_results, agent_of, after_turn, next_step, routes, routes_from,
  add_route, pick_route, find_route, default_route,
}
use st_air_case.Workflow.Bounds.{run_graph-Bounded}

abbrev team : Plan
team = record {
  plan_version = 2;
  case_id = pos 1;
  topology_version = pos 1;
  supervisor = "lead";
  agents =
      record { name = "lead"; role = ""; model = "gpt-5"; tools = "run_shell" ∷ [] }
      ∷ record { name = "writer"; role = ""; model = "gpt-5"; tools = [] }
      ∷ [];
  edges = record { source = "lead"; target = "writer"; condition = "" } ∷ [];
  prd = "";
  repo_context = "";
  stories = [];
  lessons = [];
  harness = "";
  review = none;
  blueprint_hash = "";
  limits = record {
    checkpoint_every = pos 0;
    max_files_changed = pos 0;
    max_scope_violations = pos 0;
    max_run_secs = pos 0;
  };
}

team_runs : validate team ≡ []
unfolding validate secret_for provider_for has_slash is_end
team_runs = refl

-- The lead calls a tool, sends the writer, and ends once the writer is done.
abbrev scripted : ℕ → Agent → List Route → List Message → Result String Reply
scripted n a rs messages = ok (
    if n == 0
    then record {
      content = "";
      tool_calls = record { call_id = "1"; tool_name = "run_shell"; arguments = "" } ∷ [];
    }
    else record { content = if n == 1 then "writer" else "END"; tool_calls = [] })

abbrev same : String → String
same s = s

abbrev whole : String → Option String
whole reply = some reply

abbrev shell : ℕ → String → ToolCall → String
shell n a c = ""

abbrev never : ℕ → Bool
never n = false

abbrev finished : Finished
finished = run_graph same str_eq whole scripted shell never team "the task"

who_was_asked : finished.asked ≡ "lead" ∷ "writer" ∷ "lead" ∷ []
unfolding run_graph walk_graph turn heed tool_results agent_of after_turn next_step routes
    routes_from add_route pick_route find_route default_route is_end
who_was_asked = refl

run_graph-Bounded_example :
    (length finished.asked ≤ max_agent_steps)
    × (finished.calls ≤ max_model_calls)
    × All (λ a. known team a ≡ true) finished.asked
run_graph-Bounded_example =
    run_graph-Bounded same str_eq whole scripted shell never team "the task" refl team_runs

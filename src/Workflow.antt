-- ===== src/Workflow.antt =====
-- src/internal/agent/graph.go: a compiled plan run as a graph of agents that share one conversation. `chat` is
-- the n-th call of a model, `use_tool` a call of a tool and `cancelled` the end of the run from
-- outside; `find_label` is the label of the last ROUTE line of a reply (`regexp` and `strings.Trim`).
pub mod Bounds
mod Examples
use st_air_case.Prelude.{
  ℕ, zero, suc, String, Bool, true, false, ◌||◌, not, Option, none, some, List, [], ◌∷◌, ◌++◌, any,
  map, str_eq, if◌then◌else◌, Result, ok, err,
}
use st_air_case.Plan.{Plan, Agent, Edge, is_end}

abbrev pub max_agent_steps : ℕ
max_agent_steps = 25

abbrev pub max_model_calls : ℕ
max_model_calls = 100

-- A possible next step; the target "" is END.
pub record Route : Type 0 where
  pub label : String
  pub target : String

pub record ToolCall : Type 0 where
  pub call_id : String
  pub tool_name : String
  pub arguments : String

pub data Message : Type 0 where
  briefing : String → Message
  assistant : String → List ToolCall → Message
  tool_result : String → String → Message

pub record Reply : Type 0 where
  pub content : String
  pub tool_calls : List ToolCall

-- How a run ends: at END, or with one of its errors.
pub data GraphEnd : Type 0 where
  reached_end too_many_steps too_many_calls was_cancelled : GraphEnd
  model_failed : String → String → GraphEnd

-- How an agent's tool loop ends; the numbers are the calls made and those left.
pub data Turn : Type 0 where
  stopped : GraphEnd → ℕ → List Message → Turn
  answered : String → ℕ → ℕ → List Message → Turn

-- A finished run: the agents it asked in order, its calls of models, and the conversation.
pub record Finished : Type 0 where
  pub ending : GraphEnd
  pub asked : List String
  pub calls : ℕ
  pub messages : List Message

abbrev pub no_agent : Agent
no_agent = record { name = ""; role = ""; model = ""; tools = [] }

-- The map of agents by name, where a later agent replaces an earlier one.
unfoldable pub agent_of : List Agent → String → Agent
agent_of [] name = no_agent
agent_of (a ∷ as') name =
    if any (λ (b : Agent). str_eq b.name name) as'
    then agent_of as' name
    else if str_eq a.name name
    then a
    else no_agent

abbrev pub edge_route : Edge → Route
edge_route e = record {
  label =
      if str_eq e.condition "" then if is_end e.target then "END" else e.target else e.condition;
  target = if is_end e.target then "" else e.target;
}

module _ (to_lower : String → String) where
  -- `add`: a label is taken once, in any letter case.
  unfoldable pub add_route : List Route → Route → List Route
  add_route rs r =
      if any (λ (q : Route). str_eq (to_lower q.label) (to_lower r.label)) rs
      then rs
      else rs ++ r ∷ []

  unfoldable pub routes_from : String → List Edge → List Route → List Route
  unfolding add_route
  routes_from agent [] rs = rs
  routes_from agent (e ∷ es) rs =
      routes_from agent es (if str_eq e.source agent then add_route rs (edge_route e) else rs)

  unfoldable pub routes : Plan → String → List Route
  unfolding routes_from add_route
  routes p agent =
      let rs = routes_from agent p.edges [] in
      if str_eq agent p.supervisor then add_route rs (record { label = "END"; target = "" }) else rs

module _ (equal_fold : String → String → Bool) where
  unfoldable pub find_route : List Route → String → Option String
  find_route [] label = none
  find_route (r ∷ rs) label =
      if equal_fold r.label label then some r.target else find_route rs label

  unfoldable pub pick_route : List Route → Option String → Option String
  unfolding find_route
  pick_route rs none = none
  pick_route rs (some label) = find_route rs label

-- Where no route was picked.
unfoldable pub default_route : Plan → String → List Route → String
default_route p agent (r ∷ []) = r.target
default_route p agent rs = if str_eq agent p.supervisor then "" else p.supervisor

abbrev pub picked_or : Option String → String → String
picked_or none d = d
picked_or (some t) d = t

-- The results of the calls that a reply makes, in order.
unfoldable pub tool_results : (ToolCall → String) → List ToolCall → List Message
tool_results use' [] = []
tool_results use' (c ∷ cs) = tool_result c.call_id (use' c) ∷ tool_results use' cs

-- What a reply does: it ends the loop, or its tools are called and the loop goes on.
unfoldable pub heed :
    ℕ
    → ℕ
    → (ToolCall → String)
    → Bool
    → List Message
    → String
    → List ToolCall
    → (List Message → Turn)
    → Turn
unfolding tool_results
heed n left use' cancelled messages content [] next =
    answered content (suc n) left (messages ++ assistant content [] ∷ [])
heed n left use' cancelled messages content (c ∷ cs) next =
    let said = messages ++ assistant content (c ∷ cs) ∷ tool_results use' (c ∷ cs) in
    if cancelled then stopped was_cancelled (suc n) said else next said

abbrev pub reply_or : String → ℕ → List Message → Result String Reply → (Reply → Turn) → Turn
reply_or name n messages (err e) go = stopped (model_failed name e) (suc n) messages
reply_or name n messages (ok r) go = go r

module _ (to_lower : String → String) (equal_fold : String → String → Bool)
    (find_label : String → Option String)
    (chat : ℕ → Agent → List Route → List Message → Result String Reply)
    (use_tool : ℕ → String → ToolCall → String) (cancelled : ℕ → Bool) where
  -- The tool loop of an agent, at the n-th call of a model with `left` calls to go.
  unfoldable pub turn : ℕ → ℕ → Agent → List Route → List Message → Turn
  unfolding heed
  turn zero n a rs messages = stopped too_many_calls n messages
  turn (suc left) n a rs messages = reply_or a.name n messages (chat n a rs messages) (λ r.
      heed n left (use_tool n a.name) (cancelled n) messages r.content r.tool_calls
        (turn left (suc n) a rs))

  unfoldable pub next_step : Plan → String → String → String
  unfolding routes pick_route default_route
  next_step p agent reply =
      picked_or (pick_route equal_fold (routes to_lower p agent) (find_label reply))
        (default_route p agent (routes to_lower p agent))

  abbrev pub asked_first : String → Finished → Finished
  asked_first name f = record f { asked = name ∷ f.asked }

  -- What follows a turn: the end, or the next agent.
  unfoldable pub after_turn :
      Plan → String → Turn → (String → ℕ → ℕ → List Message → Finished) → Finished
  unfolding next_step
  after_turn p agent (stopped why n messages) next = record {
    ending = why;
    asked = [];
    calls = n;
    messages = messages;
  }
  after_turn p agent (answered reply n left messages) next =
      if str_eq (next_step p agent reply) ""
      then record { ending = reached_end; asked = []; calls = n; messages = messages }
      else next (next_step p agent reply) n left messages

  -- The loop over the steps, with `steps` of them to go.
  unfoldable pub walk_graph : ℕ → Plan → String → ℕ → ℕ → List Message → Finished
  unfolding agent_of after_turn turn routes
  walk_graph zero p current n left messages = record {
    ending = too_many_steps;
    asked = [];
    calls = n;
    messages = messages;
  }
  walk_graph (suc steps) p current n left messages =
      let a = agent_of p.agents current in
      asked_first current (
        after_turn p a.name (turn left n a (routes to_lower p a.name) messages)
          (walk_graph steps p))

  -- `Graph.Run` behind the choice of the model; `brief` is the first message.
  unfoldable pub run_graph : Plan → String → Finished
  unfolding walk_graph
  run_graph p brief =
      walk_graph max_agent_steps p p.supervisor 0 max_model_calls (briefing brief ∷ [])

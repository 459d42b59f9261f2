-- ===== src/Workflow/Bounds.antt =====
-- agent/graph.go, `Run`: how long a run of a plan goes on, and whom it asks.
use st_air_case.Prelude.{
  ℕ, zero, suc, ◌+◌, ◌≤◌, ◌<◌, String, ◌≡◌, refl, subst, ◌⊎◌, inl, inr, Bool, true, false, Option,
  List, [], ◌∷◌, arith, str_eq, length, any, All, All-append, if◌then◌else◌, Bool-cases,
  Option-cases, Result, ok, err,
}
use st_air_case.Plan.{Plan, Agent, Edge, is_end, known, validate}
use st_air_case.Plan.Validation.{IsRunnable, IsWired, validate-IsRunnable}
use st_air_case.Workflow.{
  max_agent_steps, max_model_calls, Route, ToolCall, Message, briefing, Reply, Turn, stopped,
  answered, Finished, agent_of, edge_route, add_route, routes_from, routes, find_route, pick_route,
  default_route, picked_or, heed, reply_or, turn, next_step, after_turn, walk_graph, run_graph,
}

-- The calls made and left in a turn, against all the calls there are.
abbrev Spent : ℕ → Turn → Type 0
Spent total (stopped why n messages) = n ≤ total
Spent total (answered reply n left messages) = n + left ≡ total

-- A next step is the end or an agent of the plan.
abbrev Leads : Plan → String → Type 0
Leads p t = (str_eq t "" ≡ true) ⊎ (known p t ≡ true)

abbrev RouteLeads : Plan → Route → Type 0
RouteLeads p r = Leads p r.target

edge_route-Leads : (p : Plan) (e : Edge) → IsWired p e → RouteLeads p (edge_route e)
edge_route-Leads p e w = elim (Bool-cases (is_end e.target)) [
  | inl end ↦ rw end (inl refl)
  | inr step ↦ rw step (inr (let t = w.to_agent in ground arith))
]

module _ (to_lower : String → String) where
  add_route-Leads :
      (p : Plan) (rs : List Route) (r : Route)
      → All (RouteLeads p) rs
      → RouteLeads p r
      → All (RouteLeads p) (add_route to_lower rs r)
  unfolding add_route
  add_route-Leads p rs r a l =
      elim (Bool-cases (any (λ (q : Route). str_eq (to_lower q.label) (to_lower r.label)) rs)) [
        | inl seen ↦ rw seen a
        | inr new ↦ rw new (All-append (RouteLeads p) rs (r ∷ []) a (l, tt))
      ]

  routes_from-Leads :
      (p : Plan) (agent : String) (es : List Edge) (rs : List Route)
      → All (IsWired p) es
      → All (RouteLeads p) rs
      → All (RouteLeads p) (routes_from to_lower agent es rs)
  unfolding routes_from
  routes_from-Leads p agent [] rs w a = a
  routes_from-Leads p agent (e ∷ es) rs w a = elim (Bool-cases (str_eq e.source agent)) [
    | inl own ↦ rw own (
        routes_from-Leads p agent es (add_route to_lower rs (edge_route e)) w.1
          (add_route-Leads p rs (edge_route e) a (edge_route-Leads p e w.0)))
    | inr other ↦ rw other (routes_from-Leads p agent es rs w.1 a)
  ]

  routes-Leads :
      (p : Plan) (agent : String) → IsRunnable p → All (RouteLeads p) (routes to_lower p agent)
  unfolding routes
  routes-Leads p agent ok' =
      let a = routes_from-Leads p agent p.edges [] ok'.edges_wired tt in
      elim (Bool-cases (str_eq agent p.supervisor)) [
        | inl first ↦ rw first (
            add_route-Leads p (routes_from to_lower agent p.edges [])
              (record { label = "END"; target = "" }) a (inl refl))
        | inr other ↦ rw other a
      ]

  find_route-Leads :
      (equal_fold : String → String → Bool) (p : Plan) (rs : List Route) (label d : String)
      → All (RouteLeads p) rs
      → Leads p d
      → Leads p (picked_or (find_route equal_fold rs label) d)
  unfolding find_route
  find_route-Leads equal_fold p [] label d a l = l
  find_route-Leads equal_fold p (r ∷ rs) label d a l =
      elim (Bool-cases (equal_fold r.label label)) [
        | inl this ↦ rw this a.0
        | inr not_this ↦ rw not_this (find_route-Leads equal_fold p rs label d a.1 l)
      ]

  home-Leads : (p : Plan) → IsRunnable p → (b : Bool) → Leads p (if b then "" else p.supervisor)
  home-Leads p ok' true = inl refl
  home-Leads p ok' false = inr ok'.supervisor_known

  default_route-Leads :
      (p : Plan) (agent : String) (rs : List Route)
      → IsRunnable p
      → All (RouteLeads p) rs
      → Leads p (default_route p agent rs)
  unfolding default_route
  default_route-Leads p agent [] ok' a = home-Leads p ok' (str_eq agent p.supervisor)
  default_route-Leads p agent (r ∷ []) ok' a = a.0
  default_route-Leads p agent (r ∷ q ∷ rs) ok' a = home-Leads p ok' (str_eq agent p.supervisor)

heed-Spent :
    (total n left : ℕ) (use' : ToolCall → String) (c : Bool) (messages : List Message)
    (content : String) (calls : List ToolCall) (next : List Message → Turn)
    → suc n + left ≡ total
    → ((m : List Message) → Spent total (next m))
    → Spent total (heed n left use' c messages content calls next)
unfolding heed
heed-Spent total n left use' c messages content [] next e h = e
heed-Spent total n left use' true messages content (t ∷ ts) next e h = omega arith
heed-Spent total n left use' false messages content (t ∷ ts) next e h = h _

reply_or-Spent :
    (total : ℕ) (name : String) (n : ℕ) (messages : List Message) (r : Result String Reply)
    (go : Reply → Turn)
    → n < total
    → ((q : Reply) → Spent total (go q))
    → Spent total (reply_or name n messages r go)
reply_or-Spent total name n messages (ok q) go l h = h q
reply_or-Spent total name n messages (err e) go l h = omega arith

module _ (to_lower : String → String) (equal_fold : String → String → Bool)
    (find_label : String → Option String)
    (chat : ℕ → Agent → List Route → List Message → Result String Reply)
    (use_tool : ℕ → String → ToolCall → String) (cancelled : ℕ → Bool) where
  next_step-Leads :
      (p : Plan) (agent reply : String)
      → IsRunnable p
      → Leads p (next_step to_lower equal_fold find_label chat use_tool cancelled p agent reply)
  unfolding next_step pick_route
  next_step-Leads p agent reply ok' =
      let a = routes-Leads to_lower p agent ok' in
      let d = default_route-Leads to_lower p agent (routes to_lower p agent) ok' a in
      elim (Option-cases (find_label reply)) [
        | inl none' ↦ rw none' d
        | inr (label, some') ↦
            rw some' (find_route-Leads to_lower equal_fold p (routes to_lower p agent) label _ a d)
      ]

  turn-Spent :
      (left n : ℕ) (a : Agent) (rs : List Route) (messages : List Message)
      → Spent
          (n + left)
          (turn to_lower equal_fold find_label chat use_tool cancelled left n a rs messages)
  unfolding turn
  turn-Spent zero n a rs messages = omega arith
  turn-Spent (suc left) n a rs messages =
      reply_or-Spent (n + suc left) a.name n messages (chat n a rs messages) _ (omega arith) (λ r.
        heed-Spent (n + suc left) n left (use_tool n a.name) (cancelled n) messages r.content
          r.tool_calls
          (turn to_lower equal_fold find_label chat use_tool cancelled left (suc n) a rs)
          (omega arith)
          (λ m.
            subst
              (λ t.
                Spent t
                  (turn to_lower equal_fold find_label chat use_tool cancelled left (suc n) a rs m))
              (omega arith) (turn-Spent left (suc n) a rs m)))

  -- A run with `steps` steps and `total` calls to go.
  abbrev Bounded : Plan → ℕ → ℕ → Finished → Type 0
  Bounded p steps total f =
      (length f.asked ≤ steps) × (f.calls ≤ total) × All (λ a. known p a ≡ true) f.asked

  after_turn-Bounded :
      (p : Plan) (agent : String) (t : Turn) (next : String → ℕ → ℕ → List Message → Finished)
      (steps total : ℕ)
      → IsRunnable p
      → Spent total t
      → ((q : String) (n left : ℕ) (m : List Message)
          → known p q ≡ true
          → n + left ≡ total
          → Bounded p steps total (next q n left m))
      → Bounded p steps total
          (after_turn to_lower equal_fold find_label chat use_tool cancelled p agent t next)
  unfolding after_turn
  after_turn-Bounded p agent (stopped why n m) next steps total ok' s h = (omega arith, s, tt)
  after_turn-Bounded p agent (answered reply n left m) next steps total ok' s h =
      elim (next_step-Leads p agent reply ok') [
        | inl end ↦ rw end (omega arith, omega arith, tt)
        | inr agent' ↦
            elim (Bool-cases (
              str_eq
                (next_step to_lower equal_fold find_label chat use_tool cancelled p agent reply)
                "")) [
                  | inl end ↦ rw end (omega arith, omega arith, tt)
                  | inr go ↦ rw go (h _ n left m agent' s)
                ]
      ]

  walk_graph-Bounded :
      (steps : ℕ) (p : Plan) (current : String) (n left total : ℕ) (messages : List Message)
      → IsRunnable p
      → known p current ≡ true
      → n + left ≡ total
      → Bounded p steps total (
          walk_graph to_lower equal_fold find_label chat use_tool cancelled steps p current n left
            messages)
  unfolding walk_graph
  walk_graph-Bounded zero p current n left total messages ok' k e = (omega arith, omega arith, tt)
  walk_graph-Bounded (suc steps) p current n left total messages ok' k e =
      let a = agent_of p.agents current in
      let (x, y, z) =
        after_turn-Bounded p a.name
          (turn to_lower equal_fold find_label chat use_tool cancelled left n a
            (routes to_lower p a.name) messages)
          (walk_graph to_lower equal_fold find_label chat use_tool cancelled steps p) steps total
          ok' (rw (← e) (turn-Spent left n a (routes to_lower p a.name) messages))
          (λ q n' left' m k' e'. walk_graph-Bounded steps p q n' left' total m ok' k' e') in
      (omega arith, y, (k, z))

  -- A run of a plan that passes its validation always ends: it asks at most 25 agents, one after the
  -- other, all of them agents of the plan, and calls models at most 100 times, whatever the models answer.
  pub run_graph-Bounded :
      (p : Plan) (brief : String)
      → str_eq p.harness "" ≡ true
      → validate p ≡ []
      → let f = run_graph to_lower equal_fold find_label chat use_tool cancelled p brief in
        (length f.asked ≤ max_agent_steps)
        × (f.calls ≤ max_model_calls)
        × All (λ a. known p a ≡ true) f.asked
  unfolding run_graph
  run_graph-Bounded p brief native valid =
      let ok' = (validate-IsRunnable p native).0 valid in
      walk_graph-Bounded max_agent_steps p p.supervisor 0 max_model_calls max_model_calls
        (briefing brief ∷ []) ok' ok'.supervisor_known refl

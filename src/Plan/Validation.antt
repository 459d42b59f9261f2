-- ===== src/Plan/Validation.antt =====
-- plan.go, Validate: what an accepted plan is.
use st_air_case.Prelude.{
  String, Bool, true, false, ◌||◌, List, [], ◌∷◌, ◌++◌, ◌≡◌, refl, ◌↔◌, inl, inr, arith, str_eq,
  Bool-cases, if◌then◌else◌, All,
}
use st_air_case.Plan.{
  Plan, Agent, Edge, Problem, validate, is_end, contains, builtin_tools, harnesses, known,
  names_commit, tool_problems, agent_problems, edge_problems, same,
}
use st_air_case.Plan.Provider.{secret_for}

-- The agent has a model that some provider serves, and only built-in tools.
pub record IsServed (a : Agent) : Type 0 where
  pub served : str_eq (secret_for a.model) "" ≡ false
  pub tools_known : All (λ t. contains builtin_tools t ≡ true) a.tools

-- The edge leads from an agent to an agent or to the end.
pub record IsWired (p : Plan) (e : Edge) : Type 0 where
  pub from_agent : known p e.source ≡ true
  pub to_agent : (known p e.target || is_end e.target) ≡ true

-- A plan for the built-in agents that can run.
pub record IsRunnable (p : Plan) : Type 0 where
  pub agents_served : All IsServed p.agents
  pub supervisor_known : known p p.supervisor ≡ true
  pub edges_wired : All (IsWired p) p.edges

append-nil_cases {ℓ} : {A : Type ℓ} (xs ys : List A) → xs ++ ys ≡ [] → (xs ≡ []) × (ys ≡ [])
append-nil_cases [] ys h = (refl, h)
append-nil_cases (x ∷ xs) ys h = cc

unless_nil : (b : Bool) (x : Problem) → (if b then [] else x ∷ []) ≡ [] → b ≡ true
unless_nil true x h = refl
unless_nil false x h = cc

when_nil : (b : Bool) (x : Problem) → (if b then x ∷ [] else []) ≡ [] → b ≡ false
when_nil true x h = cc
when_nil false x h = refl

tools_sound :
    (a : String) (ts : List String)
    → tool_problems a ts ≡ []
    → All (λ t. contains builtin_tools t ≡ true) ts
unfolding tool_problems
tools_sound a [] h = tt
tools_sound a (t ∷ ts) h = elim (Bool-cases (contains builtin_tools t)) [
  | inl yes' ↦ (yes', tools_sound a ts (rw yes' at h))
  | inr no' ↦ absurd (cc (rw no' at h))
]

tools_complete :
    (a : String) (ts : List String)
    → All (λ t. contains builtin_tools t ≡ true) ts
    → tool_problems a ts ≡ []
unfolding tool_problems
tools_complete a [] h = refl
tools_complete a (t ∷ ts) h = rw h.0 (tools_complete a ts h.1)

agents_sound : (as' : List Agent) → agent_problems as' ≡ [] → All IsServed as'
unfolding agent_problems
agents_sound [] h = tt
agents_sound (a ∷ as') h =
    let (p, q) = append-nil_cases _ _ h in
    let (r, s) = append-nil_cases (tool_problems a.name a.tools) _ q in
    (
      record { served = when_nil _ _ p; tools_known = tools_sound a.name a.tools r },
      agents_sound as' s,
    )

agents_complete : (as' : List Agent) → All IsServed as' → agent_problems as' ≡ []
unfolding agent_problems
agents_complete [] h = refl
agents_complete (a ∷ as') h =
    rw (h.0.served) (rw (tools_complete a.name a.tools h.0.tools_known) (agents_complete as' h.1))

edges_sound : (p : Plan) (es : List Edge) → edge_problems p es ≡ [] → All (IsWired p) es
unfolding edge_problems
edges_sound p [] h = tt
edges_sound p (e ∷ es) h =
    let (q, r) = append-nil_cases _ _ h in
    let (s, t) = append-nil_cases _ (edge_problems p es) r in
    (record { from_agent = unless_nil _ _ q; to_agent = unless_nil _ _ s }, edges_sound p es t)

edges_complete : (p : Plan) (es : List Edge) → All (IsWired p) es → edge_problems p es ≡ []
unfolding edge_problems
edges_complete p [] h = refl
edges_complete p (e ∷ es) h = rw (h.0.from_agent) (rw (h.0.to_agent) (edges_complete p es h.1))

-- A plan without a harness passes the check exactly when every agent has a model that a provider
-- serves and only built-in tools, the supervisor is one of the agents, and every edge leads from an
-- agent to an agent or to the end.
pub validate-IsRunnable : (p : Plan) → str_eq p.harness "" ≡ true → (validate p ≡ []) ↔ IsRunnable p
unfolding validate
validate-IsRunnable p native = (
  λ h.
      let (q, r) = append-nil_cases (agent_problems p.agents) _ (rw native at h) in
      let (s, t) = append-nil_cases _ (edge_problems p p.edges) r in
      record {
        agents_served = agents_sound p.agents q;
        supervisor_known = unless_nil _ _ s;
        edges_wired = edges_sound p p.edges t;
      },
  λ h. rw native (
      rw (agents_complete p.agents h.agents_served)
        (rw (h.supervisor_known) (edges_complete p p.edges h.edges_wired))),
)

same_iff : (a b : Bool) → (same a b ≡ true) ↔ (a ≡ b)
unfolding same
same_iff true b = (λ h. ground arith, λ h. ground arith)
same_iff false b = (λ h. ground arith, λ h. ground arith)

-- A plan that names a harness passes exactly when the harness is one of those supported, the plan
-- has no agents, edges or supervisor of its own, and it names the commit it reviews if and only if
-- the harness is "review".
pub validate-harness_iff :
    (p : Plan)
    → str_eq p.harness "" ≡ false
    → (validate p ≡ []) ↔ (
        (contains harnesses p.harness ≡ true)
        × (p.agents ≡ [])
        × (p.edges ≡ [])
        × (str_eq p.supervisor "" ≡ true)
        × (str_eq p.harness "review" ≡ names_commit p.review))
unfolding validate
validate-harness_iff p named = rw named (
    (
      λ h. ground (arith, (same_iff (str_eq p.harness "review") (names_commit p.review)).0),
      λ h. ground (arith, (same_iff (str_eq p.harness "review") (names_commit p.review)).1),
    ))

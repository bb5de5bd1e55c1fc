-- ===== src/SpawnTracker.antt =====
-- The limits on agent invocations (src/core/spawn-tracker.ts), the roles of the agents
-- (src/core/registry.ts), and how an invocation starts and ends (invokeAgentTool of
-- src/server/tools/agents.ts). Between the check and the begin of an invocation that is allowed the
-- code does not wait, so `start` is one step.
pub mod Limits
pub mod Parents
use agentic_mcp_teaming.Common.{
  ℕ, ◌+◌, ◌*◌, ◌/◌, ◌-◌, String, Bool, true, false, ◌&&◌, not, Option, none, some, List, [], ◌∷◌,
  ◌==◌, ltb, leb, if◌then◌else◌, is_some, str_eq,
}
use agentic_mcp_teaming.Dict.{Dict}
use agentic_mcp_teaming.Dict

pub record AgentEntry : Type 0 where
  pub can_review : Bool
  pub can_revise : Bool
  pub can_implement : Bool
  pub allow_sub_invocation : Bool

abbrev pub AgentRegistry : Type 0
AgentRegistry = Dict AgentEntry

pub data RegistryIssue : Type 0 where
  no_agents no_revisers no_implementers : RegistryIssue

unfoldable pub ids_with : (AgentEntry → Bool) → AgentRegistry → List String
ids_with role [] = []
ids_with role ((id, e) ∷ agents) =
    let rest = ids_with role agents in if role e then id ∷ rest else rest

abbrev pub reviewers : AgentRegistry → List String
reviewers = ids_with (λ e. e.can_review)

abbrev pub revisers : AgentRegistry → List String
revisers = ids_with (λ e. e.can_revise)

abbrev pub implementers : AgentRegistry → List String
implementers = ids_with (λ e. e.can_implement)

abbrev no_ids : List String → Bool
no_ids [] = true
no_ids (id ∷ ids) = false

-- What the constructor of the registry throws.
unfoldable pub registry_issue : AgentRegistry → Option RegistryIssue
unfolding ids_with
registry_issue [] = some no_agents
registry_issue (a ∷ agents) =
    if no_ids (revisers (a ∷ agents))
    then some no_revisers
    else if no_ids (implementers (a ∷ agents))
    then some no_implementers
    else none

pub record InvocationContext : Type 0 where
  pub invocation_id : String
  pub parent_invocation_id : Option String
  pub depth : ℕ

pub data Source : Type 0 where
  coordinator agent : Source

pub record ActiveInvocation : Type 0 where
  pub agent_id : String
  pub allow_sub_invocation : Bool

pub record SpawnTracker : Type 0 where
  pub active_count : ℕ
  pub session_total : ℕ
  pub active_invocations : Dict ActiveInvocation
  pub max_depth : ℕ
  pub max_concurrent : ℕ
  pub max_session : ℕ

pub data Reason : Type 0 where
  unknown_agent sub_invocation_not_permitted depth_limit_exceeded : Reason
  concurrent_limit_reached session_budget_exhausted : Reason

-- `none` is allowed. Two of the reasons escalate to the human.
abbrev pub should_escalate : Reason → Bool
should_escalate depth_limit_exceeded = true
should_escalate session_budget_exhausted = true
should_escalate _ = false

abbrev is_agent : Source → Bool
is_agent agent = true
is_agent coordinator = false

-- `parentId ? … : undefined`: an empty id counts as none.
abbrev active : Dict ActiveInvocation → Option String → Option ActiveInvocation
active d none = none
active d (some id) = if str_eq id "" then none else Dict.get d id

abbrev permits : Option ActiveInvocation → Bool
permits none = false
permits (some parent) = parent.allow_sub_invocation

unfoldable pub check : SpawnTracker → InvocationContext → Option AgentEntry → Source → Option Reason
check t c entry source =
    if not (is_some entry)
    then some unknown_agent
    else if is_agent source && not (permits (active t.active_invocations c.parent_invocation_id))
    then some sub_invocation_not_permitted
    else if ltb t.max_depth c.depth
    then some depth_limit_exceeded
    else if is_agent source && leb t.max_concurrent t.active_count
    then some concurrent_limit_reached
    else if leb t.max_session t.session_total
    then some session_budget_exhausted
    else none

-- The first component is the warning at 80 percent of the budget.
unfoldable pub begin_invocation :
    SpawnTracker → InvocationContext → Source → String → Bool → Bool × SpawnTracker
begin_invocation t c source agent_id allow_sub_invocation = (
  t.session_total + 1 == t.max_session * 4 / 5,
  record t {
    session_total = t.session_total + 1;
    active_count = if is_agent source then t.active_count + 1 else t.active_count;
    active_invocations =
        Dict.set t.active_invocations c.invocation_id
          (record { agent_id = agent_id; allow_sub_invocation = allow_sub_invocation });
  },
)

unfoldable pub end_invocation : SpawnTracker → InvocationContext → Source → SpawnTracker
end_invocation t c source = record t {
  active_count =
      if is_agent source && ltb 0 t.active_count then t.active_count - 1 else t.active_count;
  active_invocations = Dict.delete t.active_invocations c.invocation_id;
}

abbrev pub source_of : InvocationContext → Source
source_of c = if c.depth == 1 then coordinator else agent

pub data Started : Type 0 where
  rejected : Reason → Started
  began : (warns : Bool) → SpawnTracker → Started

abbrev begun :
    SpawnTracker → InvocationContext → String → Option AgentEntry → Option Reason → Started
begun t c agent_id entry (some reason) = rejected reason
begun t c agent_id none none = rejected unknown_agent
begun t c agent_id (some e) none =
    let (warns, t') = begin_invocation t c (source_of c) agent_id e.allow_sub_invocation in
    began warns t'

unfoldable pub start : AgentRegistry → SpawnTracker → InvocationContext → String → Started
unfolding check begin_invocation
start agents t c agent_id =
    let entry = Dict.get agents agent_id in begun t c agent_id entry (check t c entry (source_of c))

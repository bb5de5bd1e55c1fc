-- ===== src/Tests/Spawning.antt =====
-- The theorems on agent invocations (src/core/spawn-tracker.ts): the coordinator invokes one agent,
-- which invokes another.
use agentic_mcp_teaming.Common.{
  String, ◌≡◌, refl, true, false, none, some, [], ◌∷◌, any, keep, arith,
}
use agentic_mcp_teaming.Dict
use agentic_mcp_teaming.SpawnTracker.{
  AgentEntry, AgentRegistry, InvocationContext, ActiveInvocation, start,
}
use agentic_mcp_teaming.SpawnTracker.Limits.{
  State, here, after_step, starting, WithinLimits, spawn_limits_hold,
}
use agentic_mcp_teaming.SpawnTracker.Parents.{permits_id, parent_must_run}

abbrev lead : AgentEntry
lead = record {
  can_review = true;
  can_revise = true;
  can_implement = true;
  allow_sub_invocation = true;
}

abbrev agents : AgentRegistry
agents = ("lead", lead) ∷ []

abbrev idle : State
idle = record {
  tracker = record {
    active_count = 0;
    session_total = 0;
    active_invocations = [];
    max_depth = 2;
    max_concurrent = 5;
    max_session = 50;
  };
  running = [];
}

abbrev first : InvocationContext
first = record { invocation_id = "a"; parent_invocation_id = none; depth = 1 }

abbrev second : InvocationContext
second = record { invocation_id = "b"; parent_invocation_id = some "a"; depth = 2 }

abbrev permission : ActiveInvocation
permission = record { agent_id = "lead"; allow_sub_invocation = true }

abbrev one_running : State
one_running = record {
  tracker = record idle.tracker { session_total = 1; active_invocations = ("a", permission) ∷ [] };
  running = record { context = first; invocation = permission } ∷ [];
}

abbrev two_running : State
two_running = record {
  tracker = record idle.tracker {
    active_count = 1;
    session_total = 2;
    active_invocations = ("a", permission) ∷ ("b", permission) ∷ [];
  };
  running =
      record { context = second; invocation = permission }
      ∷ record { context = first; invocation = permission }
      ∷ [];
}

spawn_limits_hold_example : WithinLimits two_running
unfolding start keep Dict.get Dict.set
spawn_limits_hold_example =
    spawn_limits_hold agents {s = idle} {s' = two_running}
      (record { counted = refl; concurrent = omega arith; budget = omega arith })
      (after_step (after_step here (starting first "lead" lead false one_running.tracker refl refl))
        (starting second "lead" lead false two_running.tracker refl refl))

parent_must_run_example :
    (id : String) × (second.parent_invocation_id ≡ some id)
    × (any (permits_id id) one_running.running ≡ true)
unfolding start Dict.get Dict.set
parent_must_run_example =
    parent_must_run agents idle one_running second "lead" lead false two_running.tracker refl
      (after_step here (starting first "lead" lead false one_running.tracker refl refl)) refl refl
      refl

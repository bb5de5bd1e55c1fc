-- ===== src/SpawnTracker/Parents.antt =====
-- Who may start a sub-invocation (src/core/spawn-tracker.ts, src/server/tools/agents.ts).
use agentic_mcp_teaming.Common.{
  String, ◌≡◌, refl, inl, inr, Bool, true, ◌&&◌, ◌||◌, some, List, [], ◌∷◌, ◌++◌, arith, any,
  str_eq, Option-cases, subst,
}
use agentic_mcp_teaming.Dict
use agentic_mcp_teaming.SpawnTracker.{
  AgentEntry, AgentRegistry, InvocationContext, agent, source_of, ActiveInvocation, SpawnTracker,
  check, begin_invocation, end_invocation, began, start, active,
}
use agentic_mcp_teaming.SpawnTracker.Limits.{
  Running, State, Step, starting, ending, Reachable, here, after_step, start-began,
}

-- A running invocation with this id, whose agent may start others.
abbrev pub permits_id : String → Running → Bool
permits_id id x = str_eq x.context.invocation_id id && x.invocation.allow_sub_invocation

any-append : (f : Running → Bool) (xs ys : List Running) → any f (xs ++ ys) ≡ (any f xs || any f ys)
unfolding any
any-append f [] ys = refl
any-append f (x ∷ xs) ys = ground (arith, any-append f xs ys)

-- What the tracker holds as permitted is running.
pub record IsTracked (s : State) : Type 0 where
  pub at :
      (id : String) (inv : ActiveInvocation)
      → Dict.get s.tracker.active_invocations id ≡ some inv
      → inv.allow_sub_invocation ≡ true
      → any (permits_id id) s.running ≡ true

Step-IsTracked :
    (agents : AgentRegistry) {s s' : State} → IsTracked s → Step agents s s' → IsTracked s'
unfolding begin_invocation end_invocation any
Step-IsTracked agents v (starting {s} c agent_id e warns t known done) = record {
  at = λ id inv there may.
      rw-begun id inv (subst (λ u. Dict.get u.active_invocations id ≡ some inv) same there) may;
}
  where
    same : t ≡ (begin_invocation s.tracker c (source_of c) agent_id e.allow_sub_invocation).1
    same = (start-began agents s.tracker t c agent_id e warns known done).1

    rw-begun :
        (id : String) (inv : ActiveInvocation)
        → Dict.get
            (begin_invocation s.tracker c
              (source_of c)
              agent_id
              e.allow_sub_invocation).1.active_invocations
            id
          ≡ some inv
        → inv.allow_sub_invocation ≡ true
        → ((str_eq c.invocation_id id && e.allow_sub_invocation) || any (permits_id id) s.running)
          ≡ true
    rw-begun id inv there may =
        let new : ActiveInvocation = record {
          agent_id = agent_id;
          allow_sub_invocation = e.allow_sub_invocation;
        } in
        ground (
          arith,
          there,
          may,
          v.at id inv,
          Dict.get-set s.tracker.active_invocations c.invocation_id new id,
        )
Step-IsTracked agents v (ending {t} front x back) = record {
  at = λ id inv there may. ground (
    arith,
    there,
    may,
    v.at id inv,
    Dict.get-delete t.active_invocations x.context.invocation_id id,
    any-append (permits_id id) front (x ∷ back),
    any-append (permits_id id) front back,
  );
}

Reachable-IsTracked :
    (agents : AgentRegistry) {s s' : State} → IsTracked s → Reachable agents s s' → IsTracked s'
Reachable-IsTracked agents v here = v
Reachable-IsTracked agents v (after_step reached step) =
    Step-IsTracked agents (Reachable-IsTracked agents v reached) step

-- In a session that began with nothing running, an invocation that is not the coordinator's starts only
-- while the parent that it names is running, with an agent that may start others.
pub parent_must_run :
    (agents : AgentRegistry) (s s' : State) (c : InvocationContext) (agent_id : String)
    (e : AgentEntry) (warns : Bool) (t : SpawnTracker)
    → s.tracker.active_invocations ≡ []
    → Reachable agents s s'
    → source_of c ≡ agent
    → Dict.get agents agent_id ≡ some e
    → start agents s'.tracker c agent_id ≡ began warns t
    → (id : String) × (c.parent_invocation_id ≡ some id) × (any (permits_id id) s'.running ≡ true)
unfolding check Dict.get
parent_must_run agents s s' c agent_id e warns t fresh reached by known done =
    let allowed = (start-began agents s'.tracker t c agent_id e warns known done).0 in
    let tracked =
      Reachable-IsTracked agents
        (record { at = λ id inv there may. absurd (none_there id inv (rw fresh at there)) })
        reached in
    elim (Option-cases c.parent_invocation_id) [
      | inl absent ↦ absurd (ground (arith, allowed, by, absent))
      | inr (id, named) ↦ elim (Option-cases (active s'.tracker.active_invocations (some id))) [
        | inl gone ↦ absurd (ground (arith, allowed, by, named, gone))
        | inr (inv, there) ↦ (
          id,
          named,
          tracked.at id inv (ground (arith, there)) (ground (arith, allowed, by, named, there)),
        )
      ]
    ]
  where
    none_there : (id : String) (inv : ActiveInvocation) → Dict.get [] id ≡ some inv → ⊥
    none_there id inv h = cc

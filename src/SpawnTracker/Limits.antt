-- ===== src/SpawnTracker/Limits.antt =====
-- The limits hold in every sequence of invocations (src/core/spawn-tracker.ts,
-- src/server/tools/agents.ts).
use agentic_mcp_teaming.Common.{
  ℕ, ◌+◌, ◌≤◌, String, ◌≡◌, refl, ap, ◌∙◌, inl, inr, Bool, true, none, some, List, ◌∷◌, ◌++◌, arith,
  if◌then◌else◌, Bool-cases, Option-cases, length, keep, keep-append, length-append,
}
use agentic_mcp_teaming.Dict
use agentic_mcp_teaming.SpawnTracker.{
  AgentEntry, AgentRegistry, InvocationContext, source_of, ActiveInvocation, SpawnTracker, check,
  begin_invocation, end_invocation, began, start, is_agent,
}

-- An invocation that has begun and has not ended.
pub record Running : Type 0 where
  pub context : InvocationContext
  pub invocation : ActiveInvocation

abbrev pub by_agent : Running → Bool
by_agent x = is_agent (source_of x.context)

-- The number of invocations that agents have running.
abbrev pub sub_invocations : List Running → ℕ
sub_invocations xs = length (keep by_agent xs)

-- The tracker, and the invocations that are running.
pub record State : Type 0 where
  pub tracker : SpawnTracker
  pub running : List Running

pub data Step (agents : AgentRegistry) : State → State → Type 0 where
  starting :
      {s : State} (c : InvocationContext) (agent_id : String) (e : AgentEntry) (warns : Bool)
      (t : SpawnTracker)
      → Dict.get agents agent_id ≡ some e
      → start agents s.tracker c agent_id ≡ began warns t
      → Step agents s (record {
        tracker = t;
        running =
            record {
              context = c;
              invocation = record {
                agent_id = agent_id;
                allow_sub_invocation = e.allow_sub_invocation;
              };
            }
            ∷ s.running;
      })
  ending :
      {t : SpawnTracker} (front : List Running) (x : Running) (back : List Running)
      → Step agents
          (record { tracker = t; running = front ++ x ∷ back })
          (record {
            tracker = end_invocation t x.context (source_of x.context);
            running = front ++ back;
          })

pub data Reachable (agents : AgentRegistry) (s : State) : State → Type 0 where
  here : Reachable agents s s
  after_step :
      {s' s'' : State} → Reachable agents s s' → Step agents s' s'' → Reachable agents s s''

-- The counters are exact and within the limits.
pub record WithinLimits (s : State) : Type 0 where
  pub counted : s.tracker.active_count ≡ sub_invocations s.running
  pub concurrent : s.tracker.active_count ≤ s.tracker.max_concurrent
  pub budget : s.tracker.session_total ≤ s.tracker.max_session

-- An invocation that starts was allowed, and the tracker counts it.
pub start-began :
    (agents : AgentRegistry) (t t' : SpawnTracker) (c : InvocationContext) (agent_id : String)
    (e : AgentEntry) (warns : Bool)
    → Dict.get agents agent_id ≡ some e
    → start agents t c agent_id ≡ began warns t'
    → (check t c (some e) (source_of c) ≡ none)
      × (t' ≡ (begin_invocation t c (source_of c) agent_id e.allow_sub_invocation).1)
unfolding start
start-began agents t t' c agent_id e warns known done =
    elim (Option-cases (check t c (some e) (source_of c))) [
      | inl allowed ↦ (allowed, ground (arith, rw (known, allowed) at done))
      | inr (reason, refused) ↦ absurd (ground (arith, rw (known, refused) at done))
    ]

allowed-room :
    (t : SpawnTracker) (c : InvocationContext) (e : AgentEntry)
    → check t c (some e) (source_of c) ≡ none
    → (t.session_total + 1 ≤ t.max_session)
      × (is_agent (source_of c) ≡ true → t.active_count + 1 ≤ t.max_concurrent)
unfolding check
allowed-room t c e allowed = (ground (arith, allowed), λ h. ground (arith, allowed, h))

sub_invocations-append :
    (xs ys : List Running) → sub_invocations (xs ++ ys) ≡ sub_invocations xs + sub_invocations ys
sub_invocations-append xs ys =
    ap length (keep-append by_agent xs ys) ∙ length-append (keep by_agent xs) (keep by_agent ys)

sub_invocations-cons :
    (x : Running) (xs : List Running)
    → sub_invocations (x ∷ xs) ≡ (if by_agent x then sub_invocations xs + 1 else sub_invocations xs)
unfolding keep
sub_invocations-cons x xs = elim (Bool-cases (by_agent x)) [
  | inl yes' ↦ rw yes' (omega arith)
  | inr no' ↦ rw no' refl
]

Step-WithinLimits :
    (agents : AgentRegistry) {s s' : State} → WithinLimits s → Step agents s s' → WithinLimits s'
unfolding begin_invocation end_invocation
Step-WithinLimits agents w (starting {s} c agent_id e warns t known done) =
    let (allowed, same) = start-began agents s.tracker t c agent_id e warns known done in
    let (budget, room) = allowed-room s.tracker c e allowed in
    let x : Running = record {
      context = c;
      invocation = record { agent_id = agent_id; allow_sub_invocation = e.allow_sub_invocation };
    } in
    rw same (elim (Bool-cases (is_agent (source_of c))) [
      | inl sub ↦ record {
        counted = rw (sub_invocations-cons x s.running, sub) (ap (λ n. n + 1) w.counted);
        concurrent = rw sub (room sub);
        budget = budget;
      }
      | inr main ↦ record {
        counted = rw (sub_invocations-cons x s.running, main) w.counted;
        concurrent = rw main w.concurrent;
        budget = budget;
      }
    ])
Step-WithinLimits agents w (ending {t} front x back) =
    let total =
      sub_invocations-append front (x ∷ back)
      ∙ ap (λ n. sub_invocations front + n) (sub_invocations-cons x back) in
    elim (Bool-cases (by_agent x)) [
      | inl sub ↦ record {
        counted = ground (arith, sub, w.counted, total, sub_invocations-append front back);
        concurrent = ground (arith, sub, w.concurrent);
        budget = w.budget;
      }
      | inr main ↦ record {
        counted = ground (arith, main, w.counted, total, sub_invocations-append front back);
        concurrent = ground (arith, main, w.concurrent);
        budget = w.budget;
      }
    ]

-- From a tracker that counts right, whatever invocations start and end, the number of invocations that
-- agents have running is the tracker's, at most the limit, and the total is within the session's budget.
pub spawn_limits_hold :
    (agents : AgentRegistry) {s s' : State}
    → WithinLimits s
    → Reachable agents s s'
    → WithinLimits s'
spawn_limits_hold agents w here = w
spawn_limits_hold agents w (after_step reached step) =
    Step-WithinLimits agents (spawn_limits_hold agents w reached) step

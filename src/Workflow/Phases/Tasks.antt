-- ===== src/Workflow/Phases/Tasks.antt =====
-- The phase of the tasks (src/phases/tasks.ts).
use agentic_mcp_teaming.Common.{
  String, ◌≡◌, refl, ◌∙◌, subst, Bool, true, false, Option, none, some, List, arith,
}
use agentic_mcp_teaming.Consensus.{Decision}
use agentic_mcp_teaming.Session.{SessionState, WorkflowPhase, TaskAssignment, phase_to}
use agentic_mcp_teaming.SpawnTracker.{AgentRegistry, reviewers, implementers}
use agentic_mcp_teaming.Text.{lines}
use agentic_mcp_teaming.Machine.{
  Error, LogEntry, log, or_throw, emit, opened_file, logged, phase_complete, Outside, Machine, ok,
  update,
}
use agentic_mcp_teaming.Machine.Keeps.{
  Safe, Safe->>=, Safe->>, Safe-ok, Safe-pure, Safe-get_state, >>=-eq-ok, update-ok, update-Safe,
}
use agentic_mcp_teaming.Dict
use agentic_mcp_teaming.Workflow.{
  next_phase, is_cleared, gate, leave, advance_phase, ask, proceed_or_throw, transition_phase,
  run_artifact_consensus,
}
use agentic_mcp_teaming.Workflow.Frame.{run_artifact_consensus-Safe}
use agentic_mcp_teaming.Workflow.Assignments.{
  Assigned, done, no_reviewer, no_implementer, parse_task_assignments, task_lines,
}
use agentic_mcp_teaming.Workflow.Assignments.Laws.{
  AreAssigned, Settles, parse_task_assignments-Settles,
}
use agentic_mcp_teaming.Workflow.Phases.{
  open_file, throw_if_aborted, taken, tasks_to, adopt_assignments, run_tasks_phase,
}
use agentic_mcp_teaming.Workflow.Phases.Laws.{
  transition_phase-ok, throw_if_aborted-ok, InPhase, InPhase-Frames,
}

open_file-ok :
    (o : Outside) (path content : String) (s s' : Machine)
    → open_file o path s ≡ ok content s'
    → (o.open_file s.trace path ≡ some content) × (s'.state ≡ s.state)
unfolding open_file
open_file-ok o path content s s' h = go (o.open_file s.trace path) refl h
  where
    go :
        (answer : Option String)
        → o.open_file s.trace path ≡ answer
        → or_throw Error.unreadable_file answer (emit (opened_file path answer) s) ≡ ok content s'
        → (o.open_file s.trace path ≡ some content) × (s'.state ≡ s.state)
    go none e h = cc
    go (some c) e h = (ground (arith, e, h), ground (arith, h))

-- The assignments that the file's text gives.
taken-ok :
    (content : String) (registry : AgentRegistry) (ts : List TaskAssignment) (s s' : Machine)
    → taken (parse_task_assignments content (implementers registry) (reviewers registry)) s
      ≡ ok ts s'
    → AreAssigned (implementers registry) (reviewers registry) 0 (task_lines (lines content)) ts
      × (s' ≡ s)
taken-ok content registry ts s s' h =
    go (parse_task_assignments content (implementers registry) (reviewers registry))
      (parse_task_assignments-Settles content (implementers registry) (reviewers registry)) h
  where
    go :
        (a : Assigned)
        → Settles (implementers registry) (reviewers registry) 0 (task_lines (lines content)) a
        → taken a s ≡ ok ts s'
        → AreAssigned (implementers registry) (reviewers registry) 0 (task_lines (lines content)) ts
          × (s' ≡ s)
    go (done us) good h =
        let same : us ≡ ts = ground (arith, h) in
        (
          subst
              (λ vs.
                AreAssigned (implementers registry) (reviewers registry) 0
                  (task_lines (lines content)) vs)
              same good,
          ground (arith, h),
        )
    go (no_reviewer p) good h = cc
    go no_implementer good h = cc

-- A transition leaves all but the phase.
module _ (o : Outside) (artifact_id : String) (Q : SessionState → Type 0)
    (phase_free : (s : SessionState) (now : String) (p : WorkflowPhase)
      → Q s
      → Q (record (phase_to p s) { updated_at = now })) where
  abbrev OfState : Machine → Type 0
  OfState s = Q s.state

  log-Safe : (entry : LogEntry) → Safe OfState (log entry)
  log-Safe entry = record { keeps = λ s q. q }

  leave-Safe :
      (state : SessionState) (next : Option WorkflowPhase)
      → Safe OfState (leave o artifact_id state next)
  leave-Safe state none = record { keeps = λ s q. q }
  leave-Safe state (some p) =
      Safe->> (update-Safe o OfState _ (λ s now b. phase_free s.state now p))
        (Safe->> (log-Safe _) Safe-pure)

  gate-Safe :
      (cleared : Bool) (outcome : Option _) → Safe OfState (gate cleared artifact_id outcome)
  gate-Safe true outcome = record { keeps = λ s q. q }
  gate-Safe false outcome = record { keeps = λ s q. q }

  advance_phase-Safe : Safe OfState (advance_phase o artifact_id)
  unfolding advance_phase
  advance_phase-Safe = Safe->>= Safe-get_state λ state.
      Safe->> (gate-Safe (is_cleared (Dict.get state.artifact_outcomes artifact_id)) _)
        (leave-Safe state (next_phase state.current_phase))

  proceed_or_throw-Safe :
      (subject : String) (d : Decision) → Safe OfState (proceed_or_throw subject d)
  proceed_or_throw-Safe subject Decision.proceed = record { keeps = λ s q. q }
  proceed_or_throw-Safe subject Decision.abort = record { keeps = λ s q. q }

  ask-Safe : (subject : String) → Safe OfState (ask o subject)
  ask-Safe subject = record { keeps = λ s q. q }

  transition_phase-Safe : Safe OfState (transition_phase o artifact_id)
  unfolding transition_phase
  transition_phase-Safe = Safe->>= (ask-Safe "phase transition") λ decision.
      Safe->> (proceed_or_throw-Safe "phase transition" decision)
        (Safe->>= advance_phase-Safe λ p. Safe-pure)

adopt_assignments-ok :
    (o : Outside) (us ts : List TaskAssignment) (s s' : Machine)
    → adopt_assignments o us s ≡ ok ts s'
    → (us ≡ ts)
      × (s'.state.task_assignments ≡ us)
      × (next_phase s.state.current_phase ≡ some s'.state.current_phase)
unfolding adopt_assignments
adopt_assignments-ok o us ts s s' h =
    let p = s.state.current_phase in
    let (r1, s1, e1, h1) = >>=-eq-ok (run_artifact_consensus o "task-assignment" _ s) _ h in
    let (v2, s2, e2, h2) = >>=-eq-ok (throw_if_aborted "task-assignment" r1 s1) _ h1 in
    let (v3, s3, e3, h3) = >>=-eq-ok (update o (tasks_to us) s2) _ h2 in
    let (v4, s4, e4, h4) = >>=-eq-ok (transition_phase o "task-assignment" _) _ h3 in
    let here =
      Safe-ok (λ m. InPhase p m.state)
        (run_artifact_consensus-Safe o "task-assignment" (InPhase p)
          (InPhase-Frames "task-assignment" p) _)
        refl e1 in
    let still = throw_if_aborted-ok "task-assignment" r1 s1 s2 v2 e2 in
    let (now, taken) = update-ok o (tasks_to us) s2 s3 v3 e3 in
    let held =
      Safe-ok (λ m. m.state.task_assignments ≡ us)
        (transition_phase-Safe o "task-assignment" (λ st. st.task_assignments ≡ us)
          (λ s now p q. q))
        (ground (arith, taken)) e4 in
    let next = (transition_phase-ok o "task-assignment" _ s4 v4 e4).1 in
    (ground (arith, h4), ground (arith, h4, held), ground (arith, h4, next, taken, still, here))

-- Where the phase of the tasks returns, every task line of the file that it was given has, in order, its
-- turn's implementer and a reviewer that is another agent; the session holds these assignments, and has
-- moved one phase on. The text is the file's, whatever revision the reviewers approved.
pub run_tasks_phase-ok :
    (o : Outside) (registry : AgentRegistry) (path : String) (s s' : Machine)
    (ts : List TaskAssignment)
    → run_tasks_phase o registry path s ≡ ok ts s'
    → (content : String) × (o.open_file s.trace path ≡ some content)
      × AreAssigned (implementers registry) (reviewers registry) 0 (task_lines (lines content)) ts
      × (s'.state.task_assignments ≡ ts)
      × (next_phase s.state.current_phase ≡ some s'.state.current_phase)
unfolding run_tasks_phase
run_tasks_phase-ok o registry path s s' ts h =
    let p = s.state.current_phase in
    let (content, s1, e1, h1) = >>=-eq-ok (open_file o path s) _ h in
    let (r2, s2, e2, h2) = >>=-eq-ok (run_artifact_consensus o "tasks" content s1) _ h1 in
    let (v3, s3, e3, h3) =
      >>=-eq-ok
        (throw_if_aborted "tasks" r2
          (emit (logged (phase_complete WorkflowPhase.task (some r2))) s2))
        _ h2 in
    let (ts', s4, e4, h4) =
      >>=-eq-ok
        (taken (parse_task_assignments content (implementers registry) (reviewers registry)) s3) _
        h3 in
    let (same, kept, next) = adopt_assignments-ok o ts' ts s4 s' h4 in
    let (said, s1_state) = open_file-ok o path content s s1 e1 in
    let here1 : InPhase p s1.state = ground (arith, s1_state) in
    let here2 =
      Safe-ok (λ m. InPhase p m.state)
        (run_artifact_consensus-Safe o "tasks" (InPhase p) (InPhase-Frames "tasks" p) content) here1
        e2 in
    let still = throw_if_aborted-ok "tasks" r2 _ s3 v3 e3 in
    let (fair, same4) = taken-ok content registry ts' s3 s4 e4 in
    (
      content,
      said,
      subst
          (λ us.
            AreAssigned (implementers registry) (reviewers registry) 0 (task_lines (lines content))
              us)
          same fair,
      kept ∙ same,
      ground (arith, next, same4, still, here2),
    )

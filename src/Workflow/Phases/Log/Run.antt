-- ===== src/Workflow/Phases/Log/Run.antt =====
-- A run of the workflow keeps the session and its audit log together (src/phases and src/index.ts).
use agentic_mcp_teaming.Common.{String, ◌≡◌, refl, Bool, ◌||◌, str_eq, true, false, List, [], ◌∷◌}
use agentic_mcp_teaming.Consensus.{ArtifactOutcome, consensus, human_approved, aborted, pending}
use agentic_mcp_teaming.Session.{SessionState, TaskAssignment, WorkflowPhase}
use agentic_mcp_teaming.SpawnTracker.{AgentRegistry}
use agentic_mcp_teaming.Machine.{LogEntry, logged, Outside, Machine, M, log, update}
use agentic_mcp_teaming.Machine.Keeps.{
  Holds, Keeps, Holds-or_throw, CanSave, Safe, Safe->>=, Safe->>, Safe-pure, Safe-get_state,
}
use agentic_mcp_teaming.Workflow.{run_artifact_consensus, transition_phase}
use agentic_mcp_teaming.Workflow.Assignments.{Assigned, done, no_reviewer, no_implementer}
use agentic_mcp_teaming.Workflow.Phases.{
  open_file, list_markdown_files, throw_if_aborted, run_document_phase, review_specs,
  run_specs_phase, taken, adopt_assignments, run_tasks_phase, run_when, Paths, start_workflow,
  is_phase,
}
use agentic_mcp_teaming.Workflow.Phases.Log.{IsLogged, IsQuiet, emit-IsLogged}
use agentic_mcp_teaming.Workflow.Phases.Log.Tools.{
  update-IsLogged, run_artifact_consensus-IsLogged, transition_phase-IsLogged,
}

log-IsLogged : (entry : LogEntry) → IsQuiet (logged entry) → Keeps IsLogged (log entry)
log-IsLogged entry q s v = emit-IsLogged (logged entry) s q v

throw_if_aborted-IsLogged :
    (subject : String) (outcome : ArtifactOutcome)
    → Keeps IsLogged (throw_if_aborted subject outcome)
throw_if_aborted-IsLogged subject consensus s v = v
throw_if_aborted-IsLogged subject aborted s v = v
throw_if_aborted-IsLogged subject human_approved s v = v
throw_if_aborted-IsLogged subject pending s v = v

open_file-IsLogged : (o : Outside) (path : String) → Keeps IsLogged (open_file o path)
unfolding open_file
open_file-IsLogged o path s v =
    Holds-or_throw IsLogged _ _ _ (emit-IsLogged _ s (λ p. refl, λ b o. refl, λ t. tt) v)

list_markdown_files-IsLogged :
    (o : Outside) (directory : String) → Keeps IsLogged (list_markdown_files o directory)
unfolding list_markdown_files
list_markdown_files-IsLogged o directory s v =
    Holds-or_throw IsLogged _ _ _ (emit-IsLogged _ s (λ p. refl, λ b o. refl, λ t. tt) v)

log-Safe : (entry : LogEntry) → IsQuiet (logged entry) → Safe IsLogged (log entry)
log-Safe entry q = record { keeps = log-IsLogged entry q }

module _ (o : Outside) (can : CanSave o) where
  update-Safe :
      (patch : SessionState → SessionState)
      → ((s : SessionState) → (patch s).current_phase ≡ s.current_phase)
      → ((s : SessionState) → (patch s).artifact_outcomes ≡ s.artifact_outcomes)
      → Safe IsLogged (update o patch)
  update-Safe patch p a = record { keeps = update-IsLogged o can patch p a }

  open_file-Safe : (path : String) → Safe IsLogged (open_file o path)
  open_file-Safe path = record { keeps = open_file-IsLogged o path }

  consensus-Safe :
      (artifact_id content : String) → Safe IsLogged (run_artifact_consensus o artifact_id content)
  consensus-Safe artifact_id content = record {
    keeps = run_artifact_consensus-IsLogged o can artifact_id content;
  }

  transition-Safe : (artifact_id : String) → Safe IsLogged (transition_phase o artifact_id)
  transition-Safe artifact_id = record { keeps = transition_phase-IsLogged o can artifact_id }

  abort-Safe :
      (subject : String) (outcome : ArtifactOutcome)
      → Safe IsLogged (throw_if_aborted subject outcome)
  abort-Safe subject outcome = record { keeps = throw_if_aborted-IsLogged subject outcome }

  run_document_phase-IsLogged :
      (phase : WorkflowPhase) (artifact_id path : String)
      → Safe IsLogged (run_document_phase o phase artifact_id path)
  unfolding run_document_phase
  run_document_phase-IsLogged phase artifact_id path = Safe->>= (open_file-Safe path) λ content.
      Safe->>= (consensus-Safe artifact_id content) λ outcome.
        Safe->> (log-Safe _ (λ p. refl, λ b o. refl, λ t. tt))
          (Safe->> (abort-Safe artifact_id outcome) (transition-Safe artifact_id))

  taken-Safe : (a : Assigned) → Safe IsLogged (taken a)
  taken-Safe (done ts) = record { keeps = λ s v. v }
  taken-Safe (no_reviewer p) = record { keeps = λ s v. v }
  taken-Safe no_implementer = record { keeps = λ s v. v }

  run_tasks_phase-IsLogged :
      (registry : AgentRegistry) (path : String) → Safe IsLogged (run_tasks_phase o registry path)
  unfolding run_tasks_phase adopt_assignments
  run_tasks_phase-IsLogged registry path = Safe->>= (open_file-Safe path) λ content.
      Safe->>= (consensus-Safe "tasks" content) λ outcome.
        Safe->> (log-Safe _ (λ p. refl, λ b o. refl, λ t. tt)) (
          Safe->> (abort-Safe "tasks" outcome) (
            Safe->>= (taken-Safe _) λ assignments.
              Safe->>= (consensus-Safe "task-assignment" _) λ outcome'.
                Safe->> (abort-Safe "task-assignment" outcome') (
                  Safe->> (update-Safe _ (λ s. refl) (λ s. refl)) (
                    Safe->> (log-Safe _ (λ p. refl, λ b o. refl, λ t. tt))
                      (Safe->> (transition-Safe "task-assignment") Safe-pure)))))

  review_specs-IsLogged :
      (directory : String) (files : List String) → Safe IsLogged (review_specs o directory files)
  unfolding review_specs
  review_specs-IsLogged directory [] = Safe-pure
  review_specs-IsLogged directory (file ∷ files) = Safe->>= (open_file-Safe _) λ content.
      Safe->>= (consensus-Safe _ content) λ outcome.
        Safe->> (log-Safe _ (λ p. refl, λ b o. refl, λ t. tt))
          (Safe->> (abort-Safe file outcome) (review_specs-IsLogged directory files))

  run_specs_phase-IsLogged : (directory : String) → Safe IsLogged (run_specs_phase o directory)
  unfolding run_specs_phase
  run_specs_phase-IsLogged directory =
      Safe->>= (record { keeps = list_markdown_files-IsLogged o directory })
        λ files.
          Safe->> (review_specs-IsLogged directory files)
            (Safe->> (log-Safe _ (λ p. refl, λ b o. refl, λ t. tt)) (transition-Safe _))

  run_when-Safe : (b : Bool) (m : M (Unit {0})) → Safe IsLogged m → Safe IsLogged (run_when b m)
  run_when-Safe true m h = record { keeps = h.keeps }
  run_when-Safe false m h = record { keeps = λ s v. v }

  -- Whatever option `start` is given and however it ends, the session's phase and outcomes are what its
  -- audit log replays to, and each change of phase in the log goes one phase on and was made for an
  -- artifact that the log shows approved at that point. What is done with the assignments keeps this,
  -- and every write of state.json succeeds.
  pub start_workflow-IsLogged :
      (registry : AgentRegistry) (paths : Paths) (implement : List TaskAssignment → M (Unit {0}))
      (workflow : String)
      → ((assignments : List TaskAssignment) → Keeps IsLogged (implement assignments))
      → (s : Machine) → IsLogged s
      → Holds IsLogged (start_workflow o registry paths implement workflow s)
  unfolding start_workflow
  start_workflow-IsLogged registry paths implement workflow keep s v = run.keeps s v
    where
      documents :
          (phase : WorkflowPhase) (id path : String) (b : Bool)
          → Safe IsLogged (run_when b (run_document_phase o phase id path))
      documents phase id path b = run_when-Safe b _ (run_document_phase-IsLogged phase id path)

      run : Safe IsLogged (start_workflow o registry paths implement workflow)
      run = Safe->>= Safe-get_state λ s1.
          Safe->>
            (documents WorkflowPhase.proposal "proposal" paths.proposal_path
              (str_eq workflow "proposal" || is_phase s1.current_phase WorkflowPhase.proposal))
            (Safe->>= Safe-get_state λ s2.
              Safe->>
                (documents WorkflowPhase.design "design" paths.design_path
                  (is_phase s2.current_phase WorkflowPhase.design))
                (Safe->>= Safe-get_state λ s3.
                  Safe->>
                    (run_when-Safe (is_phase s3.current_phase WorkflowPhase.spec)
                      (run_specs_phase o paths.specs_dir)
                      (run_specs_phase-IsLogged paths.specs_dir))
                    (Safe->>= Safe-get_state λ s4.
                      run_when-Safe (is_phase s4.current_phase WorkflowPhase.task) _ (
                        Safe->>= (run_tasks_phase-IsLogged registry paths.tasks_path) λ ts.
                          Safe->>= Safe-get_state λ s5.
                            run_when-Safe (is_phase s5.current_phase WorkflowPhase.implementation)
                              (implement ts) (record { keeps = keep ts })))))

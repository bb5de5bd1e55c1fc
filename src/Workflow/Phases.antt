-- ===== src/Workflow/Phases.antt =====
-- The phases (src/phases/proposal.ts, design.ts, specs.ts, tasks.ts), and the order in which the
-- command `start` runs them (src/index.ts).
pub mod Laws
pub mod Specs
pub mod Tasks
pub mod Log
use Prim.Native.Char.{Char, code}
use Prim.Native.String
use agentic_mcp_teaming.Common.{
  String, Bool, true, false, none, some, List, [], ◌∷◌, ◌==◌, length, last?, str_eq, get_or,
  if◌then◌else◌, ◌||◌,
}
use agentic_mcp_teaming.Consensus.{ArtifactOutcome, aborted}
use agentic_mcp_teaming.Session.{
  WorkflowPhase, proposal, design, spec, task, implementation, review, SessionState, TaskAssignment,
}
use agentic_mcp_teaming.SpawnTracker.{AgentRegistry, reviewers, implementers}
use agentic_mcp_teaming.Machine.{
  spec_consensus, phase_complete, task_assignments_set, opened_file, listed, Outside,
  unreadable_file, invalid_state, aborted_by_human, no_distinct_reviewer, M, pure, throw, get_state,
  emit, log, or_throw, update, ◌>>=◌, ◌>>◌,
}
use agentic_mcp_teaming.Text.{◌+++◌}
use agentic_mcp_teaming.Workflow.{run_artifact_consensus, transition_phase}
use agentic_mcp_teaming.Workflow.Assignments.{
  Assigned, done, no_reviewer, no_implementer, parse_task_assignments,
}

-- `readFile`, which rejects where the file cannot be read
unfoldable pub open_file : Outside → String → M String
open_file o path s =
    let content = o.open_file s.trace path in
    or_throw unreadable_file content (emit (opened_file path content) s)

-- `listMarkdownFiles`, and `sort`: the paths as they are sorted
unfoldable pub list_markdown_files : Outside → String → M (List String)
list_markdown_files o directory s =
    let files = o.list_markdown_files s.trace directory in
    or_throw unreadable_file files (emit (listed directory files) s)

abbrev pub throw_if_aborted : String → ArtifactOutcome → M (Unit {0})
throw_if_aborted subject aborted = throw (aborted_by_human subject)
throw_if_aborted subject _ = pure tt

-- `runProposalPhase` and `runDesignPhase`, which differ in the name of the artifact.
unfoldable pub run_document_phase : Outside → WorkflowPhase → String → String → M (Unit {0})
run_document_phase o phase artifact_id path = do
  content ← open_file o path
  outcome ← run_artifact_consensus o artifact_id content
  log (phase_complete phase (some outcome))
  throw_if_aborted artifact_id outcome
  transition_phase o artifact_id

abbrev pub run_proposal_phase : Outside → String → M (Unit {0})
run_proposal_phase o = run_document_phase o proposal "proposal"

abbrev pub run_design_phase : Outside → String → M (Unit {0})
run_design_phase o = run_document_phase o design "design"

-- `specFile.replace(/\//g, ":")`
abbrev colon : Char → Char
colon c = if code c == b'/' then ":" else c

pub colons : String → String
colons String.[] = String.[]
colons (String.◌∷◌ c s) = String.◌∷◌ (colon c) (colons s)

unfoldable pub spec_artifact_id : String → String
unfolding colons ◌+++◌
spec_artifact_id spec_file = "spec:" +++ colons spec_file

unfoldable pub review_specs : Outside → String → List String → M (Unit {0})
review_specs o directory [] = pure tt
review_specs o directory (spec_file ∷ spec_files) = do
  content ← open_file o (directory +++ "/" +++ spec_file)
  outcome ← run_artifact_consensus o (spec_artifact_id spec_file) content
  log (spec_consensus spec_file outcome)
  throw_if_aborted spec_file outcome
  review_specs o directory spec_files

-- The last file as it is, or "all" where there is none. The slashes are not replaced here.
abbrev pub last_spec : List String → String
last_spec spec_files = "spec:" +++ get_or (last? spec_files) "all"

unfoldable pub run_specs_phase : Outside → String → M (Unit {0})
run_specs_phase o directory = do
  spec_files ← list_markdown_files o directory
  review_specs o directory spec_files
  log (phase_complete spec none)
  transition_phase o (last_spec spec_files)

abbrev pub taken : Assigned → M (List TaskAssignment)
taken (done ts) = pure ts
taken (no_reviewer p) = throw (no_distinct_reviewer p)
taken no_implementer = throw invalid_state

abbrev pub tasks_to : List TaskAssignment → SessionState → SessionState
tasks_to ts s = record s { task_assignments = ts }

-- The text of the assignment that the reviewers see
abbrev task_line : TaskAssignment → String
task_line t =
    "- " +++ t.task_id +++ ": primary=" +++ t.primary_agent +++ ", reviewer=" +++ t.reviewing_agent
    +++ " — " +++ t.description

unfoldable pub joined_lines : List TaskAssignment → String
joined_lines [] = ""
joined_lines (t ∷ []) = task_line t
joined_lines (t ∷ u ∷ ts) = task_line t +++ "\n" +++ joined_lines (u ∷ ts)

-- What follows once the tasks are assigned.
unfoldable pub adopt_assignments : Outside → List TaskAssignment → M (List TaskAssignment)
adopt_assignments o assignments = do
  outcome ←
      run_artifact_consensus o "task-assignment"
        ("## Task Assignment\n\n" +++ joined_lines assignments)
  throw_if_aborted "task-assignment" outcome
  update o (tasks_to assignments)
  log (task_assignments_set (length assignments))
  transition_phase o "task-assignment"
  pure assignments

unfoldable pub run_tasks_phase : Outside → AgentRegistry → String → M (List TaskAssignment)
unfolding adopt_assignments
run_tasks_phase o registry path = do
  content ← open_file o path
  outcome ← run_artifact_consensus o "tasks" content
  log (phase_complete task (some outcome))
  throw_if_aborted "tasks" outcome
  assignments ← taken (parse_task_assignments content (implementers registry) (reviewers registry))
  adopt_assignments o assignments

abbrev pub is_phase : WorkflowPhase → WorkflowPhase → Bool
is_phase proposal proposal = true
is_phase design design = true
is_phase spec spec = true
is_phase task task = true
is_phase implementation implementation = true
is_phase review review = true
is_phase _ _ = false

abbrev pub run_when : Bool → M (Unit {0}) → M (Unit {0})
run_when b m = elim b [ true ↦ m | false ↦ pure tt ]

pub record Paths : Type 0 where
  pub proposal_path : String
  pub design_path : String
  pub specs_dir : String
  pub tasks_path : String

-- The body of `start`; `workflow` is the option `--workflow`, and `implement` is what it does with the
-- assignments once the session is in the phase of the implementation.
unfoldable pub start_workflow :
    Outside → AgentRegistry → Paths → (List TaskAssignment → M (Unit {0})) → String → M (Unit {0})
start_workflow o registry paths implement workflow = do
  state ← get_state
  run_when (str_eq workflow "proposal" || is_phase state.current_phase proposal)
      (run_proposal_phase o paths.proposal_path)
  state ← get_state
  run_when (is_phase state.current_phase design) (run_design_phase o paths.design_path)
  state ← get_state
  run_when (is_phase state.current_phase spec) (run_specs_phase o paths.specs_dir)
  state ← get_state
  run_when (is_phase state.current_phase task) (do
    assignments ← run_tasks_phase o registry paths.tasks_path
    state ← get_state
    run_when (is_phase state.current_phase implementation) (implement assignments))

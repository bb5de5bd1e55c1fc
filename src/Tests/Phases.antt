-- ===== src/Tests/Phases.antt =====
-- The theorems on the phases (src/phases, src/server/tools/workflow.ts) on a small project: a text that
-- every reviewer approves, and a human who says `proceed`.
use agentic_mcp_teaming.Common.{String, ◌≡◌, ◌≢◌, refl, true, false, none, some, List, [], ◌∷◌}
use agentic_mcp_teaming.Dict
use agentic_mcp_teaming.Text.{lines, every}
use agentic_mcp_teaming.Consensus
use agentic_mcp_teaming.Consensus.{Action, AgentMessage, Agents, Decision}
use agentic_mcp_teaming.Session
use agentic_mcp_teaming.Session.{WorkflowPhase, TaskAssignment, initial_state, state_ok}
use agentic_mcp_teaming.SpawnTracker
use agentic_mcp_teaming.SpawnTracker.{AgentRegistry, reviewers, implementers, ids_with}
use agentic_mcp_teaming.Machine.{
  Outside, Machine, ok, err, Outcome, pure, update, StewardVerification,
}
use agentic_mcp_teaming.Machine.Keeps.{Holds}
use agentic_mcp_teaming.Workflow.{
  next_phase, run_consensus, increment_revision_rounds, submit_for_consensus, advance_phase,
  run_artifact_consensus, transition_phase,
}
use agentic_mcp_teaming.Workflow.Assignments.{task_lines, parse_task_assignments, done, match_task}
use agentic_mcp_teaming.Workflow.Assignments.Laws.{
  Settles, AreAssigned, parse_task_assignments-Settles,
}
use agentic_mcp_teaming.Workflow.Phases.{
  open_file, run_document_phase, run_specs_phase, run_tasks_phase, Paths, start_workflow,
}
use agentic_mcp_teaming.Workflow.Phases.Laws.{run_document_phase-next}
use agentic_mcp_teaming.Workflow.Phases.Specs.{run_specs_phase_never_returns}
use agentic_mcp_teaming.Workflow.Phases.Tasks.{run_tasks_phase-ok}
use agentic_mcp_teaming.Workflow.Phases.Log.{IsLogged, logged_phase, logged_outcome}
use agentic_mcp_teaming.Workflow.Phases.Log.Run.{start_workflow-IsLogged}

abbrev pub says : String → Action → AgentMessage
says role action = record { role = role; action = action; content = "```diff\n+x\n```" }

abbrev approving : Agents
approving = record {
  reviewer_agent_ids = "ann" ∷ "robert" ∷ [];
  review = λ id content history round. some (says id Action.approve);
  revise = λ content msgs round. some "second";
  decide = λ msgs. Decision.proceed;
}

abbrev pub evidence : String → StewardVerification
evidence commit = record {
  candidate_commit = commit;
  candidate_tree = commit;
  approved_declaration_digest = commit;
  gate_result_digest = "0123456789abcdef0123456789abcdef0123456789abcdef0123456789abcdef";
  gate_verdict = Session.pass;
  gate_provider = "container";
}

abbrev tasks_text : String
tasks_text = "# Tasks\n- [ ] 1.1 Write it\n- [x] 1.2   Test it\n- not a task\n"

abbrev pub commit_id : String
commit_id = "0123456789abcdef0123456789abcdef01234567"

abbrev pub outside : Outside
outside = record {
  git = λ t args cwd. some commit_id;
  invoke = λ t phase agent artifact round. some (says agent Action.approve);
  verify = λ t commit. some (evidence commit);
  ask = λ t subject. Decision.proceed;
  agents = λ t artifact. approving;
  open_file = λ t path. some tasks_text;
  list_markdown_files = λ t directory. some ("bus/spec.md" ∷ "wake/spec.md" ∷ []);
  save = λ t. true;
  now = λ t. "now";
  max_rounds = 3;
}

abbrev pub in_phase : WorkflowPhase → Machine
in_phase phase = record {
  state = record (initial_state "session" "now") { current_phase = phase };
  trace = [];
}

abbrev reviews_only : SpawnTracker.AgentEntry
reviews_only = record {
  can_review = true;
  can_revise = false;
  can_implement = false;
  allow_sub_invocation = false;
}

abbrev does_all : SpawnTracker.AgentEntry
does_all = record {
  can_review = true;
  can_revise = true;
  can_implement = true;
  allow_sub_invocation = false;
}

abbrev registry : AgentRegistry
registry = ("ann", does_all) ∷ ("robert", does_all) ∷ ("zoe", reviews_only) ∷ []

abbrev given : String → String → String → String → TaskAssignment
given task_id description primary reviewer = record {
  task_id = task_id;
  description = description;
  primary_agent = primary;
  reviewing_agent = reviewer;
}

abbrev given_tasks : List TaskAssignment
given_tasks = given "1.1" "Write it" "ann" "robert" ∷ given "1.2" "Test it" "robert" "zoe" ∷ []

-- The first task is ann's, and robert reviews it; robert's is reviewed by zoe.
two_tasks :
    parse_task_assignments tasks_text ("ann" ∷ "robert" ∷ []) ("ann" ∷ "robert" ∷ "zoe" ∷ [])
    ≡ done given_tasks
unfolding parse_task_assignments
two_tasks = refl

-- A line that ends in a carriage return is no task.
no_task_after_carriage_return : match_task "- [ ] 1.1 Write it\r" ≡ none
unfolding match_task
no_task_after_carriage_return = refl

parse_task_assignments-Settles_example :
    Settles
      ("ann" ∷ "robert" ∷ [])
      ("ann" ∷ "robert" ∷ "zoe" ∷ [])
      0
      (task_lines (lines tasks_text))
      (parse_task_assignments tasks_text ("ann" ∷ "robert" ∷ []) ("ann" ∷ "robert" ∷ "zoe" ∷ []))
parse_task_assignments-Settles_example =
    parse_task_assignments-Settles tasks_text ("ann" ∷ "robert" ∷ [])
      ("ann" ∷ "robert" ∷ "zoe" ∷ [])

abbrev machine_after : {A : Type 0} → Outcome A → Machine
machine_after (ok a s) = s
machine_after (err e s) = s

abbrev after_tasks : Machine
after_tasks =
    machine_after (run_tasks_phase outside registry "tasks.md" (in_phase WorkflowPhase.task))

run_tasks_phase-ok_example :
    (content : String) × (outside.open_file [] "tasks.md" ≡ some content)
    × AreAssigned
        (implementers registry)
        (reviewers registry)
        0
        (task_lines (lines content))
        given_tasks
    × (after_tasks.state.task_assignments ≡ given_tasks)
    × (next_phase WorkflowPhase.task ≡ some after_tasks.state.current_phase)
unfolding run_tasks_phase open_file run_artifact_consensus submit_for_consensus run_consensus
    Consensus.run increment_revision_rounds update Session.update state_ok initial_state
    parse_task_assignments ids_with transition_phase advance_phase Dict.get Dict.set
run_tasks_phase-ok_example =
    run_tasks_phase-ok outside registry "tasks.md" (in_phase WorkflowPhase.task) after_tasks
      given_tasks refl

-- A session that is resumed in the phase of the design reviews the proposal again, and is then in the
-- phase of the specs.
run_document_phase-next_example :
    next_phase WorkflowPhase.design
    ≡ some
        (machine_after (
          run_document_phase outside WorkflowPhase.proposal "proposal" "proposal.md"
            (in_phase WorkflowPhase.design))).state.current_phase
unfolding run_document_phase open_file run_artifact_consensus submit_for_consensus run_consensus
    Consensus.run increment_revision_rounds update Session.update state_ok initial_state
    transition_phase advance_phase Dict.get Dict.set
run_document_phase-next_example =
    run_document_phase-next outside WorkflowPhase.proposal "proposal" "proposal.md"
      (in_phase WorkflowPhase.design)
      (machine_after (
        run_document_phase outside WorkflowPhase.proposal "proposal" "proposal.md"
          (in_phase WorkflowPhase.design)))
      refl

run_specs_phase_never_returns_example :
    run_specs_phase outside "specs" (in_phase WorkflowPhase.spec)
    ≢ ok tt (in_phase WorkflowPhase.task)
unfolding every Dict.get initial_state
run_specs_phase_never_returns_example =
    run_specs_phase_never_returns outside "specs" (in_phase WorkflowPhase.spec)
      (in_phase WorkflowPhase.task) tt ("bus/spec.md" ∷ "wake/spec.md" ∷ []) "wake/spec.md" refl
      refl refl refl

abbrev paths : Paths
paths = record {
  proposal_path = "proposal.md";
  design_path = "design.md";
  specs_dir = "specs";
  tasks_path = "tasks.md";
}

start_IsLogged : IsLogged (in_phase WorkflowPhase.proposal)
unfolding initial_state logged_phase logged_outcome Dict.get
start_IsLogged = record { phase = refl; outcome = λ a. refl; lawful = tt }

start_workflow-IsLogged_example : Holds IsLogged (
    start_workflow outside registry paths
      (λ ts. pure tt)
      "proposal"
      (in_phase WorkflowPhase.proposal))
start_workflow-IsLogged_example =
    start_workflow-IsLogged outside (λ t. refl) registry paths (λ ts. pure tt) "proposal"
      (λ ts s v. v) (in_phase WorkflowPhase.proposal) start_IsLogged

-- ===== src/Tests/Implementing.antt =====
-- The theorems on the implementation phase and its verifier (src/phases/implementation.ts,
-- src/core/steward-verifier.ts): a task that is approved, verified and merged.
use agentic_mcp_teaming.Common.{String, ◌≡◌, refl, Bool, true, false, some, [], ◌∷◌}
use agentic_mcp_teaming.Text.{trim, ◌+++◌}
use agentic_mcp_teaming.Session
use agentic_mcp_teaming.Session.{WorkflowPhase, TaskAssignment}
use agentic_mcp_teaming.Platform.{Json}
use agentic_mcp_teaming.Machine.{Event, logged, task_integrated, Machine, Trace, ok}
use agentic_mcp_teaming.Common.{all}
use agentic_mcp_teaming.Dict
use agentic_mcp_teaming.Machine
use agentic_mcp_teaming.Patterns.{lower_hex_regex}
use agentic_mcp_teaming.Text.{span_while}
use agentic_mcp_teaming.Text.Find.{cut, strip_prefix, strip_prefix_i}
use agentic_mcp_teaming.Implementation.Run
use agentic_mcp_teaming.Implementation.Steps
use agentic_mcp_teaming.Implementation.{
  Job, job_of, create_worktree, generate_task_patch, materialize_patch, get_diff,
  update_task_status, integrate_task, remove_worktree, review_rounds,
}
use agentic_mcp_teaming.Implementation.Patch.{
  find_patch, find_message, strip_diff_block, strip_fences, parse_generated_patch,
}
use agentic_mcp_teaming.Implementation.Run.{run_task}
use agentic_mcp_teaming.Implementation.Steps.{machine_of}
use agentic_mcp_teaming.StewardVerifier.{
  VerificationResult, exited, verify_implementation, evidence_of,
}
use agentic_mcp_teaming.StewardVerifier.Laws.{Vouches, verify_implementation-Vouches}
use agentic_mcp_teaming.Tests.{toy}
use agentic_mcp_teaming.Tests.Phases.{commit_id, outside, in_phase}

abbrev task : TaskAssignment
task = record {
  task_id = "1.1";
  description = "Write it";
  primary_agent = "ann";
  reviewing_agent = "robert";
}

abbrev job : Job
job = job_of task "/repo" "teaming-session-1"

abbrev machine : Machine
machine = in_phase WorkflowPhase.implementation

-- The task is merged in the first round, and its worktree is removed.
abbrev ends_with_merge : Trace → Bool
ends_with_merge (Event.git a b c ∷ Event.git d e f ∷ logged (task_integrated id branch) ∷ t) = true
ends_with_merge _ = false

task_is_merged : ends_with_merge (machine_of (run_task outside job 2 machine)).trace ≡ true
unfolding run_task job_of Steps.git create_worktree Machine.update Session.update Session.state_ok
    Session.initial_state Dict.set Session.worktree_ok Run.try_task generate_task_patch Steps.invoke
    materialize_patch get_diff Run.run_loop update_task_status Dict.get all Dict.values find_message
    find_patch parse_generated_patch strip_diff_block strip_fences Run.accept
    Run.verify_and_integrate Steps.verify integrate_task remove_worktree review_rounds
    lower_hex_regex cut strip_prefix strip_prefix_i span_while trim ◌+++◌
task_is_merged = refl

answer_with_fence :
    find_patch "Commit message: Add x\n```diff\ndiff --git a b\n+x\n```\nDone."
    ≡ some "diff --git a b\n+x\n"
unfolding find_patch
answer_with_fence = refl

answer_message :
    find_message "Sure.\ncommit Message:  Add x \n```diff\ndiff --git a b\n+x\n```\nDone."
    ≡ some "Add x"
unfolding find_message
answer_message = refl

answer_summary :
    strip_diff_block "Sure.\n```diff\ndiff --git a b\n+x\n```\nDone. ```DIFF x``` ok"
    ≡ "Sure.\n\nDone.  ok"
unfolding strip_diff_block
answer_summary = refl

abbrev passing : VerificationResult
passing = record {
  verdict = Session.pass;
  reason = "all green";
  commit = commit_id;
  tree = commit_id;
  provider = "container";
  digest = commit_id;
  approved_digest = commit_id;
  attestation = Json.null;
  commands = [];
}

verify_implementation-Vouches_example :
    (t : String) × (some (commit_id +++ "\n") ≡ some t)
    × Vouches toy commit_id commit_id t
        (exited "raw")
        (λ raw. some passing)
        (λ raw. true)
        (evidence_of toy commit_id commit_id commit_id "raw" passing)
unfolding verify_implementation ◌+++◌
verify_implementation-Vouches_example =
    verify_implementation-Vouches toy commit_id commit_id (some (commit_id +++ "\n")) (exited "raw")
      (λ raw. some passing) (λ raw. true)
      (evidence_of toy commit_id commit_id commit_id "raw" passing) refl

-- ===== src/Implementation/Run.antt =====
-- The loop of a task, from review to merge, and the run of all tasks (runTask and run of
-- src/phases/implementation.ts). The loop has no bound in the code; here it runs on fuel.
use agentic_mcp_teaming.Common.{
  ℕ, zero, suc, String, Bool, true, false, none, some, List, [], ◌∷◌, ◌++◌, length, str_eq,
}
use agentic_mcp_teaming.Dict
use agentic_mcp_teaming.Text.{◌+++◌}
use agentic_mcp_teaming.Session.{TaskAssignment, TaskWorktree, WorktreeStatus}
use agentic_mcp_teaming.Machine.{
  task_start, task_replayed_for_rereview, task_verification_passed, task_integrated,
  implementation_complete, StewardVerification, Outside, Error, M, ◌>>◌, pure, throw, get_state,
  log, or_throw, update, ◌>>=◌,
}
use agentic_mcp_teaming.Implementation.Steps.{git, verify, try_catch, finally}
use agentic_mcp_teaming.Implementation.{
  job_of, create_worktree, remove_worktree, get_diff, worktree_to, update_task_status,
  generate_task_patch, materialize_patch, review_task_implementation, integrate_task, Job,
  ReviewOutcome, approved, human_approved, needs_revision, IntegrationOutcome, integrated,
  replay_required, Draft,
}

abbrev pub verified_to : StewardVerification → TaskWorktree → TaskWorktree
verified_to v w = record w {
  candidate_commit = some v.candidate_commit;
  candidate_tree = some v.candidate_tree;
  approved_declaration_digest = some v.approved_declaration_digest;
  gate_result_digest = some v.gate_result_digest;
  gate_verdict = some v.gate_verdict;
  gate_provider = some v.gate_provider;
}

-- The draft that is reviewed again on the head of the session's branch.
abbrev pub replayed : Job → String → Draft → Draft
replayed j reason d = record {
  review_base = j.session_branch;
  feedback_history = [];
  generated = record d.generated {
    summary =
        d.generated.summary +++ "\n\nReplayed onto the current " +++ j.session_branch
        +++ " head and requires re-review before " +++ reason +++ ".";
  };
}

abbrev pub again_after_diff : Outside → Job → String → (Draft → M (Unit {0})) → Draft → M (Unit {0})
again_after_diff o j reason again d = do
  diff ← get_diff o j.session_branch j.worktree_path
  again (replayed j reason d)

abbrev pub after_integration :
    Outside → Job → (Draft → M (Unit {0})) → Draft → IntegrationOutcome → M (Unit {0})
after_integration o j again d integrated = do
  update_task_status o j.task.task_id WorktreeStatus.integrated
  log (task_integrated j.task.task_id j.branch)
after_integration o j again d replay_required = again_after_diff o j "merge" again d

unfoldable pub verify_and_integrate :
    Outside → Job → (Draft → M (Unit {0})) → Draft → String → M (Unit {0})
verify_and_integrate o j again d reviewed_session_head = do
  commit ← git o ("rev-parse" ∷ "HEAD" ∷ []) j.worktree_path
  v ← verify o commit
  state ← get_state
  existing ←
      or_throw (Error.worktree_lost j.task.task_id) (Dict.get state.task_worktrees j.task.task_id)
  update o (worktree_to j.task.task_id (verified_to v existing))
  log (task_verification_passed j.task.task_id v.candidate_commit)
  outcome ← integrate_task o j reviewed_session_head
  after_integration o j again d outcome

unfoldable pub replay : Outside → Job → (Draft → M (Unit {0})) → Draft → M (Unit {0})
replay o j again d = do
  r ← git o ("rebase" ∷ j.session_branch ∷ []) j.worktree_path
  diff ← get_diff o j.session_branch j.worktree_path
  log (task_replayed_for_rereview j.task.task_id j.session_branch)
  again (replayed j "verification" d)

abbrev pub based_on : Outside → Job → (Draft → M (Unit {0})) → Draft → String → Bool → M (Unit {0})
based_on o j again d head true = verify_and_integrate o j again d head
based_on o j again d head false = replay o j again d

unfoldable pub accept : Outside → Job → (Draft → M (Unit {0})) → Draft → M (Unit {0})
accept o j again d = do
  head ← git o ("rev-parse" ∷ j.session_branch ∷ []) j.repo_root
  merge_base ← git o ("merge-base" ∷ j.branch ∷ j.session_branch ∷ []) j.repo_root
  based_on o j again d head (str_eq merge_base head)

unfoldable pub revise : Outside → Job → (Draft → M (Unit {0})) → Draft → String → M (Unit {0})
revise o j again d feedback = do
  let history = d.feedback_history ++ feedback ∷ []
  update_task_status o j.task.task_id WorktreeStatus.implementing
  generated ← generate_task_patch o j (length history)
  materialize_patch o j d.review_base generated
  diff ← get_diff o d.review_base j.worktree_path
  again (record d { feedback_history = history; generated = generated })

abbrev pub after_review :
    Outside → Job → (Draft → M (Unit {0})) → Draft → ReviewOutcome → M (Unit {0})
after_review o j again d approved = accept o j again d
after_review o j again d human_approved = accept o j again d
after_review o j again d (needs_revision feedback) = revise o j again d feedback

-- The `while (true)` loop, on fuel
unfoldable pub run_loop : Outside → Job → ℕ → Draft → M (Unit {0})
run_loop o j zero d = throw Error.out_of_fuel
run_loop o j (suc fuel) d = do
  update_task_status o j.task.task_id WorktreeStatus.reviewing
  outcome ← review_task_implementation o j
  after_review o j (run_loop o j fuel) d outcome

unfoldable pub try_task : Outside → Job → ℕ → String → M (Unit {0})
try_task o j fuel base_commit = do
  generated ← generate_task_patch o j 0
  materialize_patch o j base_commit generated
  diff ← get_diff o base_commit j.worktree_path
  run_loop o j fuel
      (record { review_base = base_commit; feedback_history = []; generated = generated })

abbrev pub started : Job → String → TaskWorktree
started j base_commit = record {
  branch = j.branch;
  worktree_path = j.worktree_path;
  base_commit = base_commit;
  status = WorktreeStatus.implementing;
  candidate_commit = none;
  candidate_tree = none;
  approved_declaration_digest = none;
  gate_result_digest = none;
  gate_verdict = none;
  gate_provider = none;
}

unfoldable pub run_task : Outside → Job → ℕ → M (Unit {0})
run_task o j fuel = do
  base_commit ← git o ("rev-parse" ∷ "HEAD" ∷ []) j.repo_root
  create_worktree o j base_commit
  update o (worktree_to j.task.task_id (started j base_commit))
  log (task_start j.task.task_id j.task.primary_agent j.branch base_commit)
  finally
      (try_catch (try_task o j fuel base_commit)
        (λ e. update_task_status o j.task.task_id WorktreeStatus.failed >> throw e))
      (remove_worktree o j)

unfoldable pub run_tasks : Outside → String → String → ℕ → List TaskAssignment → M (Unit {0})
run_tasks o repo_root session_branch fuel [] = pure tt
run_tasks o repo_root session_branch fuel (task ∷ tasks) =
    run_task o (job_of task repo_root session_branch) fuel
    >> run_tasks o repo_root session_branch fuel tasks

-- `ImplementationPhase.run`
unfoldable pub run_implementation :
    Outside → String → String → ℕ → List TaskAssignment → M (Unit {0})
run_implementation o repo_root session_branch fuel tasks = do
  inside ← git o ("rev-parse" ∷ "--is-inside-work-tree" ∷ []) repo_root
  run_tasks o repo_root session_branch fuel tasks
  log (implementation_complete (length tasks))

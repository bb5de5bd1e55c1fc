-- ===== src/Implementation.antt =====
-- The implementation phase (src/phases/implementation.ts): for each task a worktree, a patch by the
-- primary agent, reviews, verification and the merge. Prompts are left out: an answer may depend on all
-- that happened before. The loop of `runTask` has no bound in the code and runs on fuel here.
pub mod Patch
pub mod Steps
pub mod Run
pub mod Clearance
pub mod Stages
pub mod Rules
pub mod Merges
pub mod Safety
use Prim.Native.Char.{Char, code}
use Prim.Native.String
use agentic_mcp_teaming.Common.{
  ℕ, zero, suc, ◌+◌, ◌-◌, String, Bool, true, false, Option, none, some, List, [], ◌∷◌, ◌++◌, ◌==◌,
  if◌then◌else◌, str_eq,
}
use agentic_mcp_teaming.Dict
use agentic_mcp_teaming.Text.{is_empty, trim, ◌+++◌}
use agentic_mcp_teaming.Consensus.{
  AgentMessage, Action, approve, request_changes, block, submit, implement, comment, Decision,
}
use agentic_mcp_teaming.Session.{
  TaskAssignment, TaskWorktree, WorktreeStatus, SessionState, WorkflowPhase, pending_to,
}
use agentic_mcp_teaming.Machine.{
  task_patch_generated, task_blocked, task_replayed_for_rereview, integration_conflict, Outside,
  Error, M, ◌>>◌, pure, throw, get_state, log, or_throw, update, ◌>>=◌,
}
use agentic_mcp_teaming.Workflow.{ask}
use Patch.{GeneratedPatch, parse_generated_patch}
use Steps.{git, git_quietly, invoke, try_catch}

-- The places that a task works in.
pub record Job : Type 0 where
  pub task : TaskAssignment
  pub repo_root : String
  pub session_branch : String
  pub branch : String
  pub worktree_path : String

pub data ReviewOutcome : Type 0 where
  approved human_approved : ReviewOutcome
  needs_revision : (feedback : String) → ReviewOutcome

pub data IntegrationOutcome : Type 0 where
  integrated replay_required : IntegrationOutcome

-- The variables of the loop; the diffs stand in prompts only.
pub record Draft : Type 0 where
  pub review_base : String
  pub feedback_history : List String
  pub generated : GeneratedPatch

-- `taskId.replace(/\./g, "-")`
abbrev pub hyphen : Char → Char
hyphen c = if code c == b'.' then "-" else c

hyphens : String → String
hyphens String.[] = String.[]
hyphens (String.◌∷◌ c s) = String.◌∷◌ (hyphen c) (hyphens s)

unfoldable pub job_of : TaskAssignment → String → String → Job
unfolding hyphens ◌+++◌
job_of task repo_root session_branch = record {
  task = task;
  repo_root = repo_root;
  session_branch = session_branch;
  branch = "task/" +++ hyphens task.task_id;
  worktree_path = repo_root +++ "/.worktrees/task-" +++ hyphens task.task_id;
}

unfoldable pub create_worktree : Outside → Job → String → M (Unit {0})
create_worktree o j base_commit = do
  made ← git o ("branch" ∷ j.branch ∷ base_commit ∷ []) j.repo_root
  added ← git o ("worktree" ∷ "add" ∷ j.worktree_path ∷ j.branch ∷ []) j.repo_root
  pure tt

-- The second call is made only if the first succeeds, and no failure is passed on.
unfoldable pub remove_worktree : Outside → Job → M (Unit {0})
remove_worktree o j =
    try_catch
      (do
        removed ← git o ("worktree" ∷ "remove" ∷ "--force" ∷ j.worktree_path ∷ []) j.repo_root
        deleted ← git o ("branch" ∷ "-D" ∷ j.branch ∷ []) j.repo_root
        pure tt)
      (λ e. pure tt)

unfoldable pub get_diff : Outside → String → String → M String
unfolding ◌+++◌
get_diff o base_ref worktree_path = git o ("diff" ∷ (base_ref +++ "..HEAD") ∷ []) worktree_path

abbrev pub worktree_to : String → TaskWorktree → SessionState → SessionState
worktree_to task_id w s = record s { task_worktrees = Dict.set s.task_worktrees task_id w }

abbrev pub status_to : Outside → String → WorktreeStatus → Option TaskWorktree → M (Unit {0})
status_to o task_id status none = pure tt
status_to o task_id status (some w) = update o (worktree_to task_id (record w { status = status }))

unfoldable pub update_task_status : Outside → String → WorktreeStatus → M (Unit {0})
update_task_status o task_id status = do
  state ← get_state
  status_to o task_id status (Dict.get state.task_worktrees task_id)

unfoldable pub generate_task_patch : Outside → Job → ℕ → M GeneratedPatch
unfolding parse_generated_patch
generate_task_patch o j round = do
  response ← invoke o WorkflowPhase.implementation j.task.primary_agent j.task.task_id round
  log (task_patch_generated j.task.task_id round j.task.primary_agent)
  or_throw (Error.no_patch j.task.task_id) (parse_generated_patch response.content j.task.task_id)

abbrev pub throw_if_empty : Bool → M (Unit {0})
throw_if_empty true = throw Error.patch_changed_nothing
throw_if_empty false = pure tt

-- The patch's file has a name that the system picks.
unfoldable pub materialize_patch : Outside → Job → String → GeneratedPatch → M (Unit {0})
materialize_patch o j base_ref generated = do
  r ← git o ("reset" ∷ "--hard" ∷ base_ref ∷ []) j.worktree_path
  c ← git o ("clean" ∷ "-fd" ∷ []) j.worktree_path
  k ← git o ("apply" ∷ "--check" ∷ "--index" ∷ "change.diff" ∷ []) j.worktree_path
  a ← git o ("apply" ∷ "--index" ∷ "change.diff" ∷ []) j.worktree_path
  status ← git o ("status" ∷ "--porcelain" ∷ []) j.worktree_path
  throw_if_empty (is_empty (trim status))
  m ← git o ("commit" ∷ "-m" ∷ generated.commit_message ∷ []) j.worktree_path
  pure tt

-- A human is asked while the session is marked as waiting; `abort` throws.
abbrev pub human_accepts : String → Decision → M ReviewOutcome
human_accepts subject Decision.proceed = pure human_approved
human_accepts subject Decision.abort = throw (Error.aborted_by_human subject)

unfoldable pub checkpoint : Outside → String → M Decision
checkpoint o subject = do
  update o (pending_to true)
  decision ← ask o subject
  update o (pending_to false)
  pure decision

unfoldable pub ask_human : Outside → String → M ReviewOutcome
ask_human o subject = do decision ← checkpoint o subject; human_accepts subject decision

-- What follows a review; an answer that is no review is asked for again.
abbrev pub judge : Outside → Job → AgentMessage → M ReviewOutcome → Action → M ReviewOutcome
judge o j msg again approve = pure approved
judge o j msg again request_changes = pure (needs_revision msg.content)
judge o j msg again block =
    log (task_blocked j.task.task_id msg.content) >> ask_human o j.task.task_id
judge o j msg again submit = again
judge o j msg again implement = again
judge o j msg again comment = again

-- `left` rounds of the `for` loop are left, and `round` is its counter.
unfoldable pub review_rounds : Outside → Job → ℕ → ℕ → M ReviewOutcome
review_rounds o j zero round = ask_human o j.task.task_id
review_rounds o j (suc left) round = do
  msg ← invoke o WorkflowPhase.review j.task.reviewing_agent j.task.task_id round
  judge o j msg (review_rounds o j left (round + 1)) msg.action

abbrev pub max_review_rounds : ℕ
max_review_rounds = 3

abbrev pub review_task_implementation : Outside → Job → M ReviewOutcome
review_task_implementation o j = review_rounds o j max_review_rounds 0

abbrev pub rebase_or_abort : Outside → Job → M (Unit {0})
rebase_or_abort o j =
    try_catch (do r ← git o ("rebase" ∷ j.session_branch ∷ []) j.worktree_path; pure tt)
      (λ e.
        git_quietly o ("rebase" ∷ "--abort" ∷ []) j.worktree_path
        >> throw (Error.replay_failed j.task.task_id))

abbrev pub human_replays : Job → Decision → M (Unit {0})
human_replays j Decision.proceed = pure tt
human_replays j Decision.abort = throw (Error.aborted_by_human j.task.task_id)

unfoldable pub resolve_conflict : Outside → Job → M IntegrationOutcome
resolve_conflict o j = do
  log (integration_conflict j.task.task_id)
  git_quietly o ("merge" ∷ "--abort" ∷ []) j.repo_root
  decision ← checkpoint o j.task.task_id
  human_replays j decision
  rebase_or_abort o j
  log (task_replayed_for_rereview j.task.task_id j.session_branch)
  pure replay_required

abbrev pub merge_task : Outside → Job → M IntegrationOutcome
merge_task o j = do
  c ← git o ("checkout" ∷ j.session_branch ∷ []) j.repo_root
  m ←
      git o ("merge" ∷ "--no-ff" ∷ j.branch ∷ "-m" ∷ ("Integrate task " +++ j.task.task_id) ∷ [])
        j.repo_root
  pure integrated

abbrev pub merge_at : Outside → Job → Bool → M IntegrationOutcome
merge_at o j false = pure replay_required
merge_at o j true = merge_task o j

unfoldable pub integrate_task : Outside → Job → String → M IntegrationOutcome
integrate_task o j verified_session_head =
    try_catch
      (do
        head ← git o ("rev-parse" ∷ j.session_branch ∷ []) j.repo_root
        merge_at o j (str_eq head verified_session_head))
      (λ e. resolve_conflict o j)

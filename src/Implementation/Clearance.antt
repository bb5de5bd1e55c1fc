-- ===== src/Implementation/Clearance.antt =====
-- When a task may be merged, told from the trace alone: since the last change to the task's worktree its
-- reviewer approved, or the human accepted it; then a commit that was read as the worktree's head was
-- verified; and the session's branch has the head that it had when the commit was verified.
use agentic_mcp_teaming.Common.{
  String, ◌≡◌, Bool, true, false, ◌&&◌, ◌||◌, not, Option, none, some, [], ◌∷◌, str_eq,
  if◌then◌else◌,
}
use agentic_mcp_teaming.Consensus.{is_approve, Decision}
use agentic_mcp_teaming.Session.{WorkflowPhase}
use agentic_mcp_teaming.Machine.{Event, invoked, verified, asked, Trace}
use agentic_mcp_teaming.Implementation.{Job}

-- The git commands that change the files or the commits of a worktree.
abbrev pub is_change : String → Bool
is_change c =
    str_eq c "reset"
    || str_eq c "clean"
    || str_eq c "apply"
    || str_eq c "commit"
    || str_eq c "rebase"

module _ (j : Job) where
  abbrev pub changes : Event → Bool
  changes (Event.git (command ∷ args) cwd answer) = is_change command && str_eq cwd j.worktree_path
  changes _ = false

  abbrev pub accepts : Event → Bool
  accepts (invoked WorkflowPhase.review agent_id artifact_id round (some msg)) =
      str_eq agent_id j.task.reviewing_agent && str_eq artifact_id j.task.task_id && is_approve msg
  accepts (asked subject Decision.proceed) = str_eq subject j.task.task_id
  accepts _ = false

  -- The answer to `git rev-parse` of the session's branch, and of the worktree's head.
  abbrev pub session_head : Event → Option String
  session_head (Event.git (command ∷ ref ∷ []) cwd answer) =
      if str_eq command "rev-parse" && str_eq ref j.session_branch then answer else none
  session_head _ = none

  abbrev pub candidate_head : Event → Option String
  candidate_head (Event.git (command ∷ ref ∷ []) cwd answer) =
      if str_eq command "rev-parse" && str_eq ref "HEAD" && str_eq cwd j.worktree_path
      then answer
      else none
  candidate_head _ = none

  abbrev pub is_merge : Event → Bool
  is_merge (Event.git (command ∷ flag ∷ branch ∷ args) cwd answer) =
      str_eq command "merge" && str_eq branch j.branch
  is_merge _ = false

  abbrev pub newer : Option String → Option String → Option String
  newer none old = old
  newer (some h) old = some h

  -- What the trace tells, its newest event first.
  unfoldable pub accepted : Trace → Bool
  accepted [] = false
  accepted (e ∷ t) = not (changes e) && (accepts e || accepted t)

  unfoldable pub last_head : Trace → Option String
  last_head [] = none
  last_head (e ∷ t) = newer (session_head e) (last_head t)

  unfoldable pub candidate : Trace → Option String
  candidate [] = none
  candidate (e ∷ t) = if changes e then none else newer (candidate_head e) (candidate t)

  abbrev pub is_candidate : Option String → String → Bool
  is_candidate none commit = false
  is_candidate (some head) commit = str_eq head commit

  abbrev pub verifies : Event → Option String → Bool
  verifies (verified commit (some v)) head = is_candidate head commit
  verifies _ head = false

  unfoldable pub cleared : Trace → Bool
  cleared [] = false
  cleared (e ∷ t) = not (changes e) && (verifies e (candidate t) && accepted t || cleared t)

  unfoldable pub verified_at : Trace → Option String
  verified_at [] = none
  verified_at (e ∷ t) = if verifies e (candidate t) then last_head t else verified_at t

  abbrev pub IsCleared : Trace → Type 0
  IsCleared t =
      (cleared t ≡ true)
      × ((head : String) × (last_head t ≡ some head) × (verified_at t ≡ some head))

  -- Every merge of the task's branch was cleared by what stood before it.
  abbrev pub IsSafe : Trace → Type 0
  IsSafe [] = Unit
  IsSafe (e ∷ t) = (is_merge e ≡ true → IsCleared t) × IsSafe t

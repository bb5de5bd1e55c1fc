-- ===== src/Session.antt =====
-- The state of a workflow session (src/schema.ts) and its manager (src/core/session.ts).
use agentic_mcp_teaming.Common.{
  ℕ, ◌+◌, String, Bool, true, false, ◌&&◌, Option, none, some, List, [], if◌then◌else◌, get_or, all,
}
use agentic_mcp_teaming.Dict.{Dict}
use agentic_mcp_teaming.Dict
use agentic_mcp_teaming.Patterns.{lower_hex_regex}
use agentic_mcp_teaming.Consensus.{ArtifactOutcome}

pub data WorkflowPhase : Type 0 where
  proposal design spec task implementation review : WorkflowPhase

pub record TaskAssignment : Type 0 where
  pub task_id : String
  pub description : String
  pub primary_agent : String
  pub reviewing_agent : String

pub data WorktreeStatus : Type 0 where
  pending implementing reviewing approved integrated failed : WorktreeStatus

pub data GateVerdict : Type 0 where
  pass fail not_verifiable : GateVerdict

pub record TaskWorktree : Type 0 where
  pub branch : String
  pub worktree_path : String
  pub base_commit : String
  pub status : WorktreeStatus
  pub candidate_commit : Option String
  pub candidate_tree : Option String
  pub approved_declaration_digest : Option String
  pub gate_result_digest : Option String
  pub gate_verdict : Option GateVerdict
  pub gate_provider : Option String

pub record VerificationState : Type 0 where
  pub repository : String
  pub approved_declaration_digest : String

pub record SpawnStats : Type 0 where
  pub active_count : ℕ
  pub session_total : ℕ

pub record SessionState : Type 0 where
  pub session_id : String
  pub current_phase : WorkflowPhase
  pub artifact_outcomes : Dict ArtifactOutcome
  pub snapshot_ids : Dict String
  pub revision_rounds : Dict ℕ
  pub task_assignments : List TaskAssignment
  pub impl_branch : Option String
  pub verification : Option VerificationState
  pub task_worktrees : Dict TaskWorktree
  pub spawn_stats : SpawnStats
  pub checkpoint_pending : Bool
  pub started_at : String
  pub updated_at : String

-- `.regex(…).optional()`
abbrev matches? : (String → Bool) → Option String → Bool
matches? regex none = true
matches? regex (some s) = regex s

abbrev pub commit_regex : String → Bool
commit_regex = lower_hex_regex 40 64

abbrev pub digest_regex : String → Bool
digest_regex = lower_hex_regex 64 64

unfoldable pub worktree_ok : TaskWorktree → Bool
worktree_ok w =
    matches? commit_regex w.candidate_commit
    && matches? commit_regex w.candidate_tree
    && matches? commit_regex w.approved_declaration_digest
    && matches? digest_regex w.gate_result_digest

abbrev verification_ok : Option VerificationState → Bool
verification_ok none = true
verification_ok (some v) = commit_regex v.approved_declaration_digest

-- What `SessionState.parse` checks beyond the types.
unfoldable pub state_ok : SessionState → Bool
unfolding all Dict.values
state_ok s = verification_ok s.verification && all worktree_ok (Dict.values s.task_worktrees)

-- The state that `create` writes.
unfoldable pub initial_state : String → String → SessionState
initial_state id now = record {
  session_id = id;
  current_phase = proposal;
  artifact_outcomes = [];
  snapshot_ids = [];
  revision_rounds = [];
  task_assignments = [];
  impl_branch = none;
  verification = none;
  task_worktrees = [];
  spawn_stats = record { active_count = 0; session_total = 0 };
  checkpoint_pending = false;
  started_at = now;
  updated_at = now;
}

-- A patch is a function on the state; `none` is a state that `SessionState.parse` rejects.
unfoldable pub update : String → (SessionState → SessionState) → SessionState → Option SessionState
update now patch s =
    let s' : SessionState = record (patch s) { updated_at = now } in
    if state_ok s' then some s' else none

abbrev pub phase_to : WorkflowPhase → SessionState → SessionState
phase_to phase s = record s { current_phase = phase }

abbrev pub outcome_to : String → ArtifactOutcome → SessionState → SessionState
outcome_to artifact_id outcome s = record s {
  artifact_outcomes = Dict.set s.artifact_outcomes artifact_id outcome;
}

abbrev pub pending_to : Bool → SessionState → SessionState
pending_to b s = record s { checkpoint_pending = b }

abbrev pub next_round : SessionState → String → ℕ
next_round s artifact_id = get_or (Dict.get s.revision_rounds artifact_id) 0 + 1

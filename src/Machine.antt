-- ===== src/Machine.antt =====
-- The machine that the phases run on: the session's state (src/core/session.ts), and the trace of all
-- that the program was told from outside or wrote to the audit log (src/core/audit.ts). An answer from
-- outside is a function of the trace so far, so the same call may be answered otherwise each time.
pub mod Keeps
pub mod Triple
use agentic_mcp_teaming.Common.{ℕ, String, Bool, true, Option, none, some, List, ◌∷◌}
use agentic_mcp_teaming.Consensus.{AgentMessage, Agents, ArtifactOutcome, ConsensusResult, Decision}
use agentic_mcp_teaming.Session.{SessionState, WorkflowPhase, GateVerdict}
use agentic_mcp_teaming.Session

-- The entries of the audit log, with the fields that tell what was decided.
pub data LogEntry : Type 0 where
  consensus_start : (artifact_id : String) (phase : WorkflowPhase) → LogEntry
  consensus_end : (artifact_id : String) (outcome : ArtifactOutcome) (rounds : ℕ) → LogEntry
  phase_advance : (from_phase to_phase : WorkflowPhase) (triggered_by : String) → LogEntry
  checkpoint_resolved :
      (decision : Decision) (artifact_id : Option String) (outcome : ArtifactOutcome) → LogEntry
  spec_consensus : (spec_file : String) (outcome : ArtifactOutcome) → LogEntry
  phase_complete : (phase : WorkflowPhase) (outcome : Option ArtifactOutcome) → LogEntry
  task_assignments_set : (count : ℕ) → LogEntry
  implementation_complete : (task_count : ℕ) → LogEntry
  task_start : (task_id primary_agent branch base_commit : String) → LogEntry
  task_patch_generated : (task_id : String) (round : ℕ) (agent : String) → LogEntry
  task_blocked : (task_id reason : String) → LogEntry
  task_replayed_for_rereview : (task_id session_branch : String) → LogEntry
  task_verification_passed : (task_id commit : String) → LogEntry
  task_integrated : (task_id branch : String) → LogEntry
  integration_conflict : (task_id : String) → LogEntry

-- What `StewardVerifier.verifyImplementation` returns.
pub record StewardVerification : Type 0 where
  pub candidate_commit : String
  pub candidate_tree : String
  pub approved_declaration_digest : String
  pub gate_result_digest : String
  pub gate_verdict : GateVerdict
  pub gate_provider : String

-- What was done outside, with the answer: `none` where the call rejects.
pub data Event : Type 0 where
  git : (args : List String) (cwd : String) (stdout : Option String) → Event
  invoked :
      (phase : WorkflowPhase) (agent_id artifact_id : String) (round : ℕ)
      (answer : Option AgentMessage)
      → Event
  verified : (commit : String) (answer : Option StewardVerification) → Event
  asked : (subject : String) (decision : Decision) → Event
  deliberated : (artifact_id content : String) (result : Option ConsensusResult) → Event
  opened_file : (path : String) (content : Option String) → Event
  listed : (directory : String) (files : Option (List String)) → Event
  saved : (done : Bool) → Event
  logged : LogEntry → Event

abbrev pub Trace : Type 0
Trace = List Event

-- The answers. The newest event of a trace stands first.
pub record Outside : Type 0 where
  pub git : Trace → List String → String → Option String
  pub invoke : Trace → WorkflowPhase → String → String → ℕ → Option AgentMessage
  pub verify : Trace → String → Option StewardVerification
  pub ask : Trace → String → Decision
  pub agents : Trace → String → Agents
  pub open_file : Trace → String → Option String
  pub list_markdown_files : Trace → String → Option (List String)
  pub save : Trace → Bool
  pub now : Trace → String
  pub max_rounds : ℕ

pub record Machine : Type 0 where
  pub state : SessionState
  pub trace : Trace

pub data Error : Type 0 where
  invalid_state save_failed git_failed agent_failed verifier_rejected unreadable_file : Error
  not_approved : (artifact_id : String) (outcome : Option ArtifactOutcome) → Error
  already_final : WorkflowPhase → Error
  aborted_by_human : (subject : String) → Error
  no_distinct_reviewer : (primary_agent : String) → Error
  no_patch : (task_id : String) → Error
  patch_changed_nothing : Error
  worktree_lost : (task_id : String) → Error
  replay_failed : (task_id : String) → Error
  out_of_fuel : Error

-- What an `async` function does: it returns or throws, and the state that it leaves stays either way.
pub data Outcome (A : Type 0) : Type 0 where
  ok : A → Machine → Outcome A
  err : Error → Machine → Outcome A

abbrev pub M : Type 0 → Type 0
M A = Machine → Outcome A

infixl 5 ◌>>=◌ ◌>>◌
abbrev pub ◌>>=◌ : {A B : Type 0} → M A → (A → M B) → M B
◌>>=◌ m f s = elim (m s) [ ok a s' ↦ f a s' | err e s' ↦ err e s' ]

abbrev pub ◌>>◌ : {B : Type 0} → M (Unit {0}) → M B → M B
◌>>◌ m k s = elim (m s) [ ok a s' ↦ k s' | err e s' ↦ err e s' ]

abbrev pub pure : {A : Type 0} → A → M A
pure a s = ok a s

abbrev pub throw : {A : Type 0} → Error → M A
throw e s = err e s

abbrev pub get_state : M SessionState
get_state s = ok s.state s

abbrev pub emit : Event → Machine → Machine
emit e s = record s { trace = e ∷ s.trace }

abbrev pub log : LogEntry → M (Unit {0})
log entry s = ok tt (emit (logged entry) s)

abbrev pub or_throw : {A : Type 0} → Error → Option A → M A
or_throw e none = throw e
or_throw e (some a) = pure a

abbrev pub saved_or_throw : Bool → M (Unit {0})
saved_or_throw true = pure tt
saved_or_throw Bool.false = throw save_failed

-- `SessionManager.update`: a state that does not parse is not taken; one that parses is taken before
-- the file is written.
abbrev pub settle : Outside → Option SessionState → M (Unit {0})
settle o none = throw invalid_state
settle o (some state) = λ s.
    let done = o.save s.trace in
    saved_or_throw done (emit (saved done) (record s { state = state }))

unfoldable pub update : Outside → (SessionState → SessionState) → M (Unit {0})
update o patch s = settle o (Session.update (o.now s.trace) patch s.state) s

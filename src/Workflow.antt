-- ===== src/Workflow.antt =====
-- The workflow tools (src/server/tools/workflow.ts) and the steps that each phase is made of
-- (src/phases/base.ts).
pub mod Frame
pub mod Assignments
pub mod Phases
use agentic_mcp_teaming.Common.{
  ℕ, zero, suc, ◌-◌, String, Bool, true, false, Option, none, some, [], ◌∷◌,
}
use agentic_mcp_teaming.Dict
use agentic_mcp_teaming.Consensus
use agentic_mcp_teaming.Consensus.{
  ArtifactOutcome, consensus, human_approved, aborted, ConsensusResult, Decision, proceed, abort,
  Run, returned,
}
use agentic_mcp_teaming.Session.{
  WorkflowPhase, proposal, design, spec, task, implementation, review, SessionState, phase_to,
  outcome_to, pending_to, next_round,
}
use agentic_mcp_teaming.Machine.{
  consensus_start, consensus_end, phase_advance, checkpoint_resolved, asked, deliberated, Outside,
  agent_failed, not_approved, already_final, aborted_by_human, M, ◌>>◌, pure, throw, get_state,
  emit, log, or_throw, update, ◌>>=◌,
}

-- `WorkflowPhase.options`, and the phase after a phase in it
abbrev pub next_phase : WorkflowPhase → Option WorkflowPhase
next_phase proposal = some design
next_phase design = some spec
next_phase spec = some task
next_phase task = some implementation
next_phase implementation = some review
next_phase review = none

-- The place of a phase in `WorkflowPhase.options`.
abbrev pub index_of : WorkflowPhase → ℕ
index_of proposal = 0
index_of design = 1
index_of spec = 2
index_of task = 3
index_of implementation = 4
index_of review = 5

abbrev pub is_cleared : Option ArtifactOutcome → Bool
is_cleared (some consensus) = true
is_cleared (some human_approved) = true
is_cleared _ = false

abbrev result_of : Run → Option ConsensusResult
result_of (returned r) = some r
result_of _ = none

-- `ConsensusLoop.run`: the result, or an exception of the reviser.
unfoldable pub run_consensus : Outside → String → String → M ConsensusResult
run_consensus o artifact_id content s =
    let result = result_of (Consensus.run (o.agents s.trace artifact_id) o.max_rounds content) in
    or_throw agent_failed result (emit (deliberated artifact_id content result) s)

abbrev pub round_to : String → SessionState → SessionState
round_to artifact_id s = record s {
  revision_rounds = Dict.set s.revision_rounds artifact_id (next_round s artifact_id);
}

-- `incrementRevisionRound`, once for each revision that the loop made.
unfoldable pub increment_revision_rounds : Outside → String → ℕ → M (Unit {0})
increment_revision_rounds o artifact_id zero = pure tt
increment_revision_rounds o artifact_id (suc n) =
    update o (round_to artifact_id) >> increment_revision_rounds o artifact_id n

unfoldable pub submit_for_consensus : Outside → String → String → M ConsensusResult
submit_for_consensus o artifact_id content = do
  state ← get_state
  log (consensus_start artifact_id state.current_phase)
  result ← run_consensus o artifact_id content
  increment_revision_rounds o artifact_id (result.rounds - 1)
  update o (outcome_to artifact_id result.outcome)
  log (consensus_end artifact_id result.outcome result.rounds)
  pure result

abbrev pub leave : Outside → String → SessionState → Option WorkflowPhase → M WorkflowPhase
leave o artifact_id state none = throw (already_final state.current_phase)
leave o artifact_id state (some phase) = do
  update o (phase_to phase)
  log (phase_advance state.current_phase phase artifact_id)
  pure phase

abbrev pub gate : Bool → String → Option ArtifactOutcome → M (Unit {0})
gate true artifact_id outcome = pure tt
gate false artifact_id outcome = throw (not_approved artifact_id outcome)

unfoldable pub advance_phase : Outside → String → M WorkflowPhase
advance_phase o artifact_id = do
  state ← get_state
  let outcome = Dict.get state.artifact_outcomes artifact_id
  gate (is_cleared outcome) artifact_id outcome
  leave o artifact_id state (next_phase state.current_phase)

abbrev pub outcome_of : Decision → ArtifactOutcome
outcome_of proceed = human_approved
outcome_of abort = aborted

abbrev pub proceed_or_throw : String → Decision → M (Unit {0})
proceed_or_throw subject proceed = pure tt
proceed_or_throw subject abort = throw (aborted_by_human subject)

-- `if (params.artifactId)`: an empty id counts as none.
abbrev pub settle_outcome : Outside → Option String → ArtifactOutcome → M (Unit {0})
settle_outcome o none outcome = pure tt
settle_outcome o (some String.[]) outcome = pure tt
settle_outcome o (some (String.◌∷◌ c id)) outcome = update o (outcome_to (String.◌∷◌ c id) outcome)

unfoldable pub resolve_checkpoint : Outside → Decision → Option String → M ArtifactOutcome
resolve_checkpoint o decision artifact_id = do
  settle_outcome o artifact_id (outcome_of decision)
  update o (pending_to false)
  log (checkpoint_resolved decision artifact_id (outcome_of decision))
  proceed_or_throw "workflow" decision
  pure (outcome_of decision)

-- `HumanCheckpoint.prompt` and `promptPhaseTransition`
abbrev pub ask : Outside → String → M Decision
ask o subject s =
    let decision = o.ask s.trace subject in pure decision (emit (asked subject decision) s)

unfoldable pub run_artifact_consensus : Outside → String → String → M ArtifactOutcome
run_artifact_consensus o artifact_id content = do
  result ← submit_for_consensus o artifact_id content
  pure result.outcome

unfoldable pub transition_phase : Outside → String → M (Unit {0})
transition_phase o artifact_id = do
  decision ← ask o "phase transition"
  proceed_or_throw "phase transition" decision
  phase ← advance_phase o artifact_id
  pure tt

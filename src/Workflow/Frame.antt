-- ===== src/Workflow/Frame.antt =====
-- What the consensus on an artifact leaves alone in the session (src/server/tools/workflow.ts).
use agentic_mcp_teaming.Common.{ℕ, zero, suc, ◌-◌, String}
use agentic_mcp_teaming.Consensus.{ArtifactOutcome}
use agentic_mcp_teaming.Session.{SessionState, outcome_to}
use agentic_mcp_teaming.Machine.{LogEntry, Machine, Outside, log}
use agentic_mcp_teaming.Machine.Keeps.{
  Holds-or_throw, Safe, Safe->>=, Safe->>, Safe-pure, Safe-get_state, update-Safe,
}
use agentic_mcp_teaming.Workflow.{
  run_consensus, increment_revision_rounds, submit_for_consensus, run_artifact_consensus, round_to,
}

-- A property of the session that looks at no revision count, no time, and no outcome of the artifact.
pub record Frames (artifact_id : String) (Q : SessionState → Type 0) : Type 0 where
  pub rounds :
      (s : SessionState) (now : String)
      → Q s
      → Q (record (round_to artifact_id s) { updated_at = now })
  pub outcome :
      (s : SessionState) (now : String) (outcome : ArtifactOutcome)
      → Q s
      → Q (record (outcome_to artifact_id outcome s) { updated_at = now })

module _ (o : Outside) (artifact_id : String) (Q : SessionState → Type 0)
    (f : Frames artifact_id Q) where
  abbrev OfState : Machine → Type 0
  OfState s = Q s.state

  rounds-Safe : (n : ℕ) → Safe OfState (increment_revision_rounds o artifact_id n)
  unfolding increment_revision_rounds
  rounds-Safe zero = Safe-pure
  rounds-Safe (suc n) =
      Safe->> (update-Safe o OfState _ (λ s now b. f.rounds s.state now)) (rounds-Safe n)

  run_consensus-Safe : (content : String) → Safe OfState (run_consensus o artifact_id content)
  unfolding run_consensus
  run_consensus-Safe content = record { keeps = λ s q. Holds-or_throw OfState _ _ _ q }

  log-Safe : (entry : LogEntry) → Safe OfState (log entry)
  log-Safe entry = record { keeps = λ s q. q }

  submit-Safe : (content : String) → Safe OfState (submit_for_consensus o artifact_id content)
  unfolding submit_for_consensus
  submit-Safe content = Safe->>= Safe-get_state λ state. Safe->> (log-Safe _) (
      Safe->>= (run_consensus-Safe content) λ result. Safe->> (rounds-Safe (result.rounds - 1)) (
        Safe->> (update-Safe o OfState _ (λ s now b. f.outcome s.state now result.outcome))
          (Safe->> (log-Safe _) Safe-pure)))

  pub run_artifact_consensus-Safe :
      (content : String) → Safe (λ s. Q s.state) (run_artifact_consensus o artifact_id content)
  unfolding run_artifact_consensus
  run_artifact_consensus-Safe content = Safe->>= (submit-Safe content) (λ result. Safe-pure)

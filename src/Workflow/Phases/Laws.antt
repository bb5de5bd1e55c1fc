-- ===== src/Workflow/Phases/Laws.antt =====
-- What a phase does to the session (src/phases).
use agentic_mcp_teaming.Common.{String, ◌≡◌, refl, Bool, true, false, Option, none, some, arith}
use agentic_mcp_teaming.Dict
use agentic_mcp_teaming.Consensus.{ArtifactOutcome, Decision}
use agentic_mcp_teaming.Session.{WorkflowPhase, SessionState, phase_to}
use agentic_mcp_teaming.Machine.{
  emit, asked, pure, Outside, Machine, ok, err, ◌>>=◌, ◌>>◌, update, Error,
}
use agentic_mcp_teaming.Machine.Keeps.{Safe, Safe-ok, Holds-or_throw, >>=-eq-ok, update-ok}
use agentic_mcp_teaming.Workflow.{
  next_phase, is_cleared, gate, leave, advance_phase, proceed_or_throw, transition_phase,
  run_artifact_consensus,
}
use agentic_mcp_teaming.Workflow.Frame.{Frames, run_artifact_consensus-Safe}
use agentic_mcp_teaming.Workflow.Phases.{open_file, throw_if_aborted, run_document_phase}

leave-ok :
    (o : Outside) (artifact_id : String) (s s' : Machine) (next : Option WorkflowPhase)
    (phase : WorkflowPhase)
    → leave o artifact_id s.state next s ≡ ok phase s'
    → (next ≡ some phase)
      × (s'.state.current_phase ≡ phase)
      × (s'.state.artifact_outcomes ≡ s.state.artifact_outcomes)
leave-ok o artifact_id s s' none phase h = cc
leave-ok o artifact_id s s' (some p) phase h =
    let (u, t, e, rest) = >>=-eq-ok (update o (phase_to p) s) _ h in
    let (now, f) = update-ok o (phase_to p) s t u e in
    (ground (arith, rest), ground (arith, rest, f), ground (arith, rest, f))

-- What the test of the outcome does, for each answer.
gated-ok :
    (o : Outside) (artifact_id : String) (outcome : Option ArtifactOutcome) (cleared : Bool)
    (s s' : Machine) (phase : WorkflowPhase)
    → (gate cleared artifact_id outcome
          >> leave o artifact_id s.state (next_phase s.state.current_phase))
        s
      ≡ ok phase s'
    → (cleared ≡ true)
      × (next_phase s.state.current_phase ≡ some phase)
      × (s'.state.current_phase ≡ phase)
      × (s'.state.artifact_outcomes ≡ s.state.artifact_outcomes)
gated-ok o artifact_id outcome false s s' phase h = cc
gated-ok o artifact_id outcome true s s' phase h =
    let (p, q, r) = leave-ok o artifact_id s s' (next_phase s.state.current_phase) phase h in
    (refl, p, q, r)

-- A phase is left only for the next one, and only for an artifact whose outcome is a consensus or a
-- human's approval; the outcomes stay as they are. Where the outcome is neither, nothing changes.
pub advance_phase_lem :
    (o : Outside) (artifact_id : String) (s : Machine)
    → ((phase : WorkflowPhase) (s' : Machine)
        → advance_phase o artifact_id s ≡ ok phase s'
        → (is_cleared (Dict.get s.state.artifact_outcomes artifact_id) ≡ true)
          × (next_phase s.state.current_phase ≡ some phase)
          × (s'.state.current_phase ≡ phase)
          × (s'.state.artifact_outcomes ≡ s.state.artifact_outcomes))
      × (is_cleared (Dict.get s.state.artifact_outcomes artifact_id) ≡ false
          → advance_phase o artifact_id s
            ≡ err
                (Error.not_approved artifact_id (Dict.get s.state.artifact_outcomes artifact_id))
                s)
unfolding advance_phase
advance_phase_lem o artifact_id s = (
  λ phase s' h.
      let outcome = Dict.get s.state.artifact_outcomes artifact_id in
      gated-ok o artifact_id outcome (is_cleared outcome) s s' phase h,
  λ e. rw e refl,
)

pub transition_phase-ok :
    (o : Outside) (artifact_id : String) (s s' : Machine) (u : Unit {0})
    → transition_phase o artifact_id s ≡ ok u s'
    → (is_cleared (Dict.get s.state.artifact_outcomes artifact_id) ≡ true)
      × (next_phase s.state.current_phase ≡ some s'.state.current_phase)
unfolding transition_phase
transition_phase-ok o artifact_id s s' u h = go (o.ask s.trace "phase transition") h
  where
    go :
        (d : Decision)
        → (proceed_or_throw "phase transition" d
              >> (advance_phase o artifact_id >>= λ phase. pure tt))
            (emit (asked "phase transition" d) s)
          ≡ ok u s'
        → (is_cleared (Dict.get s.state.artifact_outcomes artifact_id) ≡ true)
          × (next_phase s.state.current_phase ≡ some s'.state.current_phase)
    go Decision.abort h = cc
    go Decision.proceed h =
        let s1 = emit (asked "phase transition" Decision.proceed) s in
        let (phase, t, e, rest) = >>=-eq-ok (advance_phase o artifact_id s1) _ h in
        let (cleared, next, now, same) = (advance_phase_lem o artifact_id s1).0 phase t e in
        (cleared, ground (arith, next, now, rest))

pub open_file-Safe :
    (o : Outside) (path : String) (Q : SessionState → Type 0)
    → Safe (λ s. Q s.state) (open_file o path)
unfolding open_file
open_file-Safe o path Q = record { keeps = λ s q. Holds-or_throw (λ s. Q s.state) _ _ _ q }

pub throw_if_aborted-ok :
    (subject : String) (outcome : ArtifactOutcome) (s s' : Machine) (u : Unit {0})
    → throw_if_aborted subject outcome s ≡ ok u s'
    → s ≡ s'
throw_if_aborted-ok subject ArtifactOutcome.consensus s s' u h = ground (arith, h)
throw_if_aborted-ok subject ArtifactOutcome.human_approved s s' u h = ground (arith, h)
throw_if_aborted-ok subject ArtifactOutcome.pending s s' u h = ground (arith, h)
throw_if_aborted-ok subject ArtifactOutcome.aborted s s' u h = cc

abbrev pub InPhase : WorkflowPhase → SessionState → Type 0
InPhase p s = s.current_phase ≡ p

pub InPhase-Frames : (artifact_id : String) (p : WorkflowPhase) → Frames artifact_id (InPhase p)
InPhase-Frames artifact_id p = record { rounds = λ s now q. q; outcome = λ s now r q. q }

-- A document's phase that returns has moved the session one phase on from where it was, whatever
-- document it read: it does not look whether the session was in the phase of that document.
pub run_document_phase-next :
    (o : Outside) (phase : WorkflowPhase) (artifact_id path : String) (s s' : Machine)
    → run_document_phase o phase artifact_id path s ≡ ok tt s'
    → next_phase s.state.current_phase ≡ some s'.state.current_phase
unfolding run_document_phase
run_document_phase-next o phase artifact_id path s s' h =
    let (content, s1, e1, h1) = >>=-eq-ok (open_file o path s) _ h in
    let (outcome, s2, e2, h2) = >>=-eq-ok (run_artifact_consensus o artifact_id content s1) _ h1 in
    let (v, s3, e3, h3) = >>=-eq-ok (throw_if_aborted artifact_id outcome _) _ h2 in
    let p = s.state.current_phase in
    let at1 = Safe-ok (λ m. InPhase p m.state) (open_file-Safe o path (InPhase p)) refl e1 in
    let at2 =
      Safe-ok (λ m. InPhase p m.state)
        (run_artifact_consensus-Safe o artifact_id (InPhase p) (InPhase-Frames artifact_id p)
          content)
        at1 e2 in
    let still = throw_if_aborted-ok artifact_id outcome _ s3 v e3 in
    ground (arith, at2, still, (transition_phase-ok o artifact_id s3 s' tt h3).1)

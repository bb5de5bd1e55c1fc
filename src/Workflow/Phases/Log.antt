-- ===== src/Workflow/Phases/Log.antt =====
-- The session as its audit log tells it: the phase and the outcomes that the entries of
-- src/server/tools/workflow.ts replay to, and what the log must be like.
pub mod Tools
pub mod Run
use agentic_mcp_teaming.Common.{
  ◌-◌, String, ◌≡◌, sym, ◌∙◌, true, Option, none, some, [], ◌∷◌, str_eq, if◌then◌else◌,
}
use agentic_mcp_teaming.Dict
use agentic_mcp_teaming.Consensus.{ArtifactOutcome}
use agentic_mcp_teaming.Session.{WorkflowPhase}
use agentic_mcp_teaming.Session
use agentic_mcp_teaming.Machine.{
  consensus_end, phase_advance, checkpoint_resolved, Event, logged, Trace, Machine, emit,
}
use agentic_mcp_teaming.Workflow.{next_phase, is_cleared}

-- The phase after an entry. A log without a change of phase is in the first one.
abbrev pub phase_after : Event → WorkflowPhase → WorkflowPhase
phase_after (logged (phase_advance f t a)) p = t
phase_after _ p = p

unfoldable pub logged_phase : Trace → WorkflowPhase
logged_phase [] = WorkflowPhase.proposal
logged_phase (e ∷ t) = phase_after e (logged_phase t)

-- The outcome of an artifact after an entry.
abbrev pub outcome_after : Event → String → Option ArtifactOutcome → Option ArtifactOutcome
outcome_after (logged (consensus_end a outcome rounds)) b before =
    if str_eq a b then some outcome else before
outcome_after (logged (checkpoint_resolved d none outcome)) b before = before
outcome_after (logged (checkpoint_resolved d (some String.[]) outcome)) b before = before
outcome_after (logged (checkpoint_resolved d (some (String.◌∷◌ c a)) outcome)) b before =
    if str_eq (String.◌∷◌ c a) b then some outcome else before
outcome_after _ b before = before

unfoldable pub logged_outcome : Trace → String → Option ArtifactOutcome
logged_outcome [] b = none
logged_outcome (e ∷ t) b = outcome_after e b (logged_outcome t b)

-- A change of phase starts from the phase that the log is in, goes to the one after it, and names an
-- artifact whose outcome in the log is a consensus or a human's approval.
abbrev pub LawfulAfter : Event → Trace → Type 0
LawfulAfter (logged (phase_advance f t a)) before =
    (f ≡ logged_phase before)
    × (next_phase f ≡ some t)
    × (is_cleared (logged_outcome before a) ≡ true)
LawfulAfter _ before = Unit

abbrev pub IsLawful : Trace → Type 0
IsLawful [] = Unit
IsLawful (e ∷ t) = LawfulAfter e t × IsLawful t

-- The session is what the log replays to, and the log is lawful.
pub record IsLogged (s : Machine) : Type 0 where
  pub phase : s.state.current_phase ≡ logged_phase s.trace
  pub outcome : (a : String) → Dict.get s.state.artifact_outcomes a ≡ logged_outcome s.trace a
  pub lawful : IsLawful s.trace

-- An event that tells nothing of phases and outcomes.
abbrev pub IsQuiet : Event → Type 0
IsQuiet e =
    ((p : WorkflowPhase) → phase_after e p ≡ p)
    × ((b : String) (o : Option ArtifactOutcome) → outcome_after e b o ≡ o)
    × ((t : Trace) → LawfulAfter e t)

pub emit-IsLogged : (e : Event) (s : Machine) → IsQuiet e → IsLogged s → IsLogged (emit e s)
unfolding logged_phase logged_outcome
emit-IsLogged e s q v = record {
  phase = v.phase ∙ sym (q.0 (logged_phase s.trace));
  outcome = λ a. v.outcome a ∙ sym (q.1 a (logged_outcome s.trace a));
  lawful = (q.2 s.trace, v.lawful);
}

-- ===== src/Workflow/Phases/Log/Tools.antt =====
-- The workflow tools keep the session and its audit log together (src/server/tools/workflow.ts and
-- src/phases/base.ts).
use agentic_mcp_teaming.Common.{
  ℕ, zero, suc, ◌-◌, String, ◌≡◌, refl, subst, ◌∙◌, inl, inr, true, false, Option, none, some, ◌∷◌,
  Bool-cases,
}
use agentic_mcp_teaming.Dict
use agentic_mcp_teaming.Dict.{get-set}
use agentic_mcp_teaming.Consensus.{ArtifactOutcome, ConsensusResult, Decision}
use agentic_mcp_teaming.Session.{WorkflowPhase, SessionState, phase_to, outcome_to, pending_to}
use agentic_mcp_teaming.Session
use agentic_mcp_teaming.Machine.{
  consensus_start, consensus_end, checkpoint_resolved, logged, saved, asked, Outside, Machine,
  Error, M, ok, err, emit, log, pure, ◌>>◌, ◌>>=◌, update,
}
use agentic_mcp_teaming.Machine.Keeps.{
  Holds, Keeps, Keeps->>=, Keeps->>, Holds-or_throw, CanSave, update_cases,
}
use agentic_mcp_teaming.Workflow.{
  next_phase, is_cleared, run_consensus, increment_revision_rounds, submit_for_consensus, leave,
  advance_phase, proceed_or_throw, outcome_of, resolve_checkpoint, run_artifact_consensus,
  transition_phase,
}
use agentic_mcp_teaming.Workflow.Phases.Log.{
  logged_phase, logged_outcome, IsLogged, IsQuiet, emit-IsLogged,
}

module _ (o : Outside) (can : CanSave o) where
  -- A patch that leaves the phase and the outcomes.
  pub update-IsLogged :
      (patch : SessionState → SessionState)
      → ((s : SessionState) → (patch s).current_phase ≡ s.current_phase)
      → ((s : SessionState) → (patch s).artifact_outcomes ≡ s.artifact_outcomes)
      → Keeps IsLogged (update o patch)
  unfolding logged_phase logged_outcome
  update-IsLogged patch same_phase same_outcomes s v = elim (update_cases o patch s can) [
    | inr e ↦ rw e v
    | inl (now, _, e) ↦ rw e (record {
      phase = same_phase s.state ∙ v.phase;
      outcome = λ a. rw (same_outcomes s.state) (v.outcome a);
      lawful = (tt, v.lawful);
    })
  ]

  -- An outcome that is set and logged.
  outcome-IsLogged :
      (artifact_id : String) (result : ConsensusResult)
      → Keeps IsLogged (
          update o (outcome_to artifact_id result.outcome)
          >> (log (consensus_end artifact_id result.outcome result.rounds) >> pure result))
  unfolding logged_phase logged_outcome
  outcome-IsLogged artifact_id result s v =
      elim (update_cases o (outcome_to artifact_id result.outcome) s can) [
        | inr e ↦ rw (e, ◌>>◌, Holds) v
        | inl (now, _, e) ↦
            rw (e, ◌>>◌, Holds)
              (record {
                phase = v.phase;
                outcome = λ a.
                    rw (get-set s.state.artifact_outcomes artifact_id result.outcome a, v.outcome a)
                      refl;
                lawful = (tt, (tt, v.lawful));
              })
      ]

  increment_revision_rounds-IsLogged :
      (artifact_id : String) (n : ℕ) → Keeps IsLogged (increment_revision_rounds o artifact_id n)
  unfolding increment_revision_rounds
  increment_revision_rounds-IsLogged artifact_id zero s v = v
  increment_revision_rounds-IsLogged artifact_id (suc n) s v =
      Keeps->> IsLogged _ _ (update-IsLogged _ (λ s. refl) (λ s. refl))
        (increment_revision_rounds-IsLogged artifact_id n) s v

  run_consensus-IsLogged :
      (artifact_id content : String) → Keeps IsLogged (run_consensus o artifact_id content)
  unfolding run_consensus
  run_consensus-IsLogged artifact_id content s v =
      Holds-or_throw IsLogged _ _ _ (emit-IsLogged _ s (λ p. refl, λ b o. refl, λ t. tt) v)

  pub submit_for_consensus-IsLogged :
      (artifact_id content : String) → Keeps IsLogged (submit_for_consensus o artifact_id content)
  unfolding submit_for_consensus
  submit_for_consensus-IsLogged artifact_id content s v =
      Keeps->>= IsLogged (run_consensus o artifact_id content) _
        (run_consensus-IsLogged artifact_id content)
        (λ result.
          Keeps->> IsLogged _ _ (increment_revision_rounds-IsLogged artifact_id (result.rounds - 1))
            (outcome-IsLogged artifact_id result))
        (emit (logged (consensus_start artifact_id s.state.current_phase)) s)
        (emit-IsLogged _ s (λ p. refl, λ b o. refl, λ t. tt) v)

  -- A phase that is left for the next one, and logged.
  leave-IsLogged :
      (artifact_id : String) (s : Machine) (next : Option WorkflowPhase)
      → next_phase s.state.current_phase ≡ next
      → is_cleared (Dict.get s.state.artifact_outcomes artifact_id) ≡ true
      → IsLogged s
      → Holds IsLogged (leave o artifact_id s.state next s)
  unfolding logged_phase logged_outcome
  leave-IsLogged artifact_id s none e cleared v = v
  leave-IsLogged artifact_id s (some phase) e cleared v =
      elim (update_cases o (phase_to phase) s can) [
        | inr f ↦ rw (f, ◌>>◌, Holds) v
        | inl (now, _, f) ↦
            rw (f, ◌>>◌, Holds)
              (record {
                phase = refl;
                outcome = v.outcome;
                lawful = (
                  (v.phase, e, subst (λ x. is_cleared x ≡ true) (v.outcome artifact_id) cleared),
                  (tt, v.lawful),
                );
              })
      ]

  pub advance_phase-IsLogged : (artifact_id : String) → Keeps IsLogged (advance_phase o artifact_id)
  unfolding advance_phase
  advance_phase-IsLogged artifact_id s v =
      elim (Bool-cases (is_cleared (Dict.get s.state.artifact_outcomes artifact_id))) [
        | inl e ↦
            rw (e, ◌>>◌, Holds)
              (leave-IsLogged artifact_id s (next_phase s.state.current_phase) refl e v)
        | inr e ↦ rw (e, ◌>>◌, Holds) v
      ]

  proceed_or_throw-IsLogged :
      (subject : String) (d : Decision) → Keeps IsLogged (proceed_or_throw subject d)
  proceed_or_throw-IsLogged subject Decision.proceed s v = v
  proceed_or_throw-IsLogged subject Decision.abort s v = v

  pub transition_phase-IsLogged :
      (artifact_id : String) → Keeps IsLogged (transition_phase o artifact_id)
  unfolding transition_phase
  transition_phase-IsLogged artifact_id s v =
      let decision = o.ask s.trace "phase transition" in
      Keeps->> IsLogged (proceed_or_throw "phase transition" decision)
        (advance_phase o artifact_id >>= λ phase. pure tt)
        (proceed_or_throw-IsLogged "phase transition" decision)
        (Keeps->>= IsLogged (advance_phase o artifact_id) (λ phase. pure tt)
          (advance_phase-IsLogged artifact_id) (λ phase s v. v))
        (emit (asked "phase transition" decision) s)
        (emit-IsLogged _ s (λ p. refl, λ b o. refl, λ t. tt) v)

  pub run_artifact_consensus-IsLogged :
      (artifact_id content : String) → Keeps IsLogged (run_artifact_consensus o artifact_id content)
  unfolding run_artifact_consensus
  run_artifact_consensus-IsLogged artifact_id content =
      Keeps->>= IsLogged (submit_for_consensus o artifact_id content) (λ r. pure r.outcome)
        (submit_for_consensus-IsLogged artifact_id content) (λ r s v. v)

  abbrev patched : (SessionState → SessionState) → Machine → Machine
  patched patch s = record {
    state = record (patch s.state) { updated_at = o.now s.trace };
    trace = saved true ∷ s.trace;
  }

  -- Where the state parses, a patch of an outcome or of the pending flag is taken.
  patch-ok :
      (patch : SessionState → SessionState) (s : Machine)
      → ((now : String)
          → Session.state_ok (record (patch s.state) { updated_at = now })
            ≡ Session.state_ok s.state)
      → Session.state_ok s.state ≡ true
      → update o patch s ≡ ok tt (patched patch s)
  unfolding update Session.update
  patch-ok patch s same good = rw (same (o.now s.trace), good, can s.trace) refl

  patch-refused :
      (patch : SessionState → SessionState) (s : Machine)
      → ((now : String)
          → Session.state_ok (record (patch s.state) { updated_at = now })
            ≡ Session.state_ok s.state)
      → Session.state_ok s.state ≡ false
      → update o patch s ≡ err Error.invalid_state s
  unfolding update Session.update
  patch-refused patch s same bad = rw (same (o.now s.trace), bad) refl

  -- What `resolve_checkpoint` does after the outcome is set.
  abbrev conclude : Decision → Option String → M ArtifactOutcome
  conclude decision artifact_id =
      update o (pending_to false)
      >> (log (checkpoint_resolved decision artifact_id (outcome_of decision))
          >> (proceed_or_throw "workflow" decision >> pure (outcome_of decision)))

  decided :
      (decision : Decision) (s : Machine)
      → IsLogged s
      → Holds IsLogged ((proceed_or_throw "workflow" decision >> pure (outcome_of decision)) s)
  decided Decision.proceed s v = v
  decided Decision.abort s v = v

  conclude-IsLogged :
      (decision : Decision) (artifact_id : Option String) (s : Machine)
      → Session.state_ok s.state ≡ true
      → IsLogged (
          emit
            (logged (checkpoint_resolved decision artifact_id (outcome_of decision)))
            (patched (pending_to false) s))
      → Holds IsLogged (conclude decision artifact_id s)
  unfolding Session.state_ok
  conclude-IsLogged decision artifact_id s good v =
      rw (patch-ok (pending_to false) s (λ now. refl) good, ◌>>◌, Holds) (decided decision _ v)

  -- Without an artifact, only the flag changes.
  conclude-quiet :
      (decision : Decision) (artifact_id : Option String)
      → IsQuiet (logged (checkpoint_resolved decision artifact_id (outcome_of decision)))
      → Keeps IsLogged (conclude decision artifact_id)
  unfolding logged_phase logged_outcome Session.state_ok
  conclude-quiet decision artifact_id q s v = elim (Bool-cases (Session.state_ok s.state)) [
    | inr bad ↦ rw (patch-refused (pending_to false) s (λ now. refl) bad, ◌>>◌, Holds) v
    | inl good ↦ conclude-IsLogged decision artifact_id s good (
        emit-IsLogged _ (patched (pending_to false) s) q
          (record { phase = v.phase; outcome = v.outcome; lawful = (tt, v.lawful) }))
  ]

  pub resolve_checkpoint-IsLogged :
      (decision : Decision) (artifact_id : Option String)
      → Keeps IsLogged (resolve_checkpoint o decision artifact_id)
  unfolding resolve_checkpoint logged_phase logged_outcome Session.state_ok
  resolve_checkpoint-IsLogged decision none s v =
      conclude-quiet decision none (λ p. refl, λ b o. refl, λ t. tt) s v
  resolve_checkpoint-IsLogged decision (some String.[]) s v =
      conclude-quiet decision (some String.[]) (λ p. refl, λ b o. refl, λ t. tt) s v
  resolve_checkpoint-IsLogged decision (some (String.◌∷◌ c a)) s v =
      let patch = outcome_to (String.◌∷◌ c a) (outcome_of decision) in
      elim (Bool-cases (Session.state_ok s.state)) [
        | inr bad ↦ rw (patch-refused patch s (λ now. refl) bad, ◌>>◌, Holds) v
        | inl good ↦
            rw (patch-ok patch s (λ now. refl) good, ◌>>◌)
              (conclude-IsLogged decision (some (String.◌∷◌ c a)) (patched patch s) good (record {
                phase = v.phase;
                outcome = λ b.
                    rw
                      (
                        get-set s.state.artifact_outcomes (String.◌∷◌ c a) (outcome_of decision) b,
                        v.outcome b,
                      )
                      refl;
                lawful = (tt, (tt, (tt, v.lawful)));
              }))
      ]

-- ===== src/Implementation/Merges.antt =====
-- Only cleared work is merged (src/phases/implementation.ts): triples of the steps that lead to a merge.
use agentic_mcp_teaming.Common.{
  ℕ, zero, suc, ◌+◌, String, ◌≡◌, refl, Bool, true, false, Option, none, some, List, [], ◌∷◌, arith,
  str_eq, eq_iff, str_eq_refl,
}
use mathlib.Core.Option
use agentic_mcp_teaming.Text.{is_empty, trim, ◌+++◌}
use agentic_mcp_teaming.Consensus.{
  AgentMessage, Action, approve, request_changes, block, submit, implement, comment, is_approve,
  Decision,
}
use agentic_mcp_teaming.Session.{WorkflowPhase, pending_to}
use agentic_mcp_teaming.Machine.{Event, invoked, asked, Trace, Outside, M}
use agentic_mcp_teaming.Machine.Triple.{
  Triple, bind, seq, weaken, pure-Triple, throw-Triple, catching,
}
use agentic_mcp_teaming.Workflow.{ask}
use agentic_mcp_teaming.Implementation.{
  Job, ReviewOutcome, approved, human_approved, needs_revision, integrated, replay_required,
  get_diff, generate_task_patch, throw_if_empty, materialize_patch, human_accepts, checkpoint,
  ask_human, judge, review_rounds, rebase_or_abort, human_replays, resolve_conflict, merge_task,
  merge_at, integrate_task,
}
use agentic_mcp_teaming.Implementation.Patch.{GeneratedPatch}
use agentic_mcp_teaming.Implementation.Steps.{git_quietly, invoke}
use agentic_mcp_teaming.Implementation.Clearance.{is_merge, IsSafe}
use agentic_mcp_teaming.Implementation.Stages.{
  Stage, IsSafe-Stage, Reviewed, Reviewed-Stage, Reviewed-accept, Verified, Verified-Stage,
  Verified-read, IsSafe-merge,
}
use agentic_mcp_teaming.Implementation.Rules.{
  On, Answers, git-Triple, invoke-Triple, free_git, neutral_git, log-Triple, saving,
  or_throw-Triple,
}

module _ (o : Outside) (j : Job) where
  abbrev pub Keeps : {A : Type 0} → M A → Type 0
  Keeps m = Triple (On (IsSafe j)) m (λ a. On (IsSafe j)) (On (IsSafe j))

  pub get_diff-Keeps : (base cwd : String) → Keeps (get_diff o base cwd)
  unfolding get_diff
  get_diff-Keeps base cwd = free_git o j _ _ (λ answer. refl)

  throw_if_empty-Keeps : (b : Bool) → Keeps (throw_if_empty b)
  throw_if_empty-Keeps true = throw-Triple _ (λ s p. p)
  throw_if_empty-Keeps false = pure-Triple tt

  pub materialize_patch-Keeps :
      (base : String) (p : GeneratedPatch) → Keeps (materialize_patch o j base p)
  unfolding materialize_patch
  materialize_patch-Keeps base p = bind (free_git o j _ _ (λ answer. refl)) λ r.
      bind (free_git o j _ _ (λ answer. refl)) λ c. bind (free_git o j _ _ (λ answer. refl)) λ k.
        bind (free_git o j _ _ (λ answer. refl)) λ a.
          bind (free_git o j _ _ (λ answer. refl)) λ status.
            seq (throw_if_empty-Keeps (is_empty (trim status)))
              (bind (free_git o j _ _ (λ answer. refl)) λ m. pure-Triple tt)

  pub generate_task_patch-Keeps : (round : ℕ) → Keeps (generate_task_patch o j round)
  unfolding generate_task_patch
  generate_task_patch-Keeps round =
      bind
        (invoke-Triple o (IsSafe j) (λ a. IsSafe j) (IsSafe j) WorkflowPhase.implementation
          j.task.primary_agent j.task.task_id round go)
        λ response.
          seq (log-Triple o j _ (IsSafe-Stage j)) (or_throw-Triple o j _ _ (IsSafe-Stage j))
    where
      go :
          (t : Trace) (answer : Option AgentMessage)
          → IsSafe j t
          → Answers
              (invoked WorkflowPhase.implementation j.task.primary_agent j.task.task_id round)
              t
              (λ a. IsSafe j)
              (IsSafe j)
              answer
      go t none s = (λ h. cc, s)
      go t (some a) s = (λ h. cc, s)

  -- What the human's answer allows.
  abbrev OfDecision : Decision → Trace → Type 0
  OfDecision Decision.proceed = Reviewed j
  OfDecision Decision.abort = IsSafe j

  OfDecision-Stage : (d : Decision) → Stage j (OfDecision d)
  OfDecision-Stage Decision.proceed = Reviewed-Stage j
  OfDecision-Stage Decision.abort = IsSafe-Stage j

  checkpoint-Triple :
      Triple (On (IsSafe j)) (checkpoint o j.task.task_id) (λ d. On (OfDecision d)) (On (IsSafe j))
  unfolding checkpoint
  checkpoint-Triple = seq (saving o j (pending_to true) (IsSafe-Stage j)) (
      bind {Q = λ d. On (OfDecision d)} {m = ask o j.task.task_id}
        (record { run = λ s p. answer (o.ask s.trace j.task.task_id) s.trace p })
        λ d. seq (saving o j (pending_to false) (OfDecision-Stage d)) (pure-Triple d))
    where
      answer : (d : Decision) (t : Trace) → IsSafe j t → OfDecision d (asked j.task.task_id d ∷ t)
      answer Decision.proceed t p =
          Reviewed-accept j (asked j.task.task_id Decision.proceed) t refl refl
            (str_eq_refl j.task.task_id) p
      answer Decision.abort t p = (λ h. cc, p)

  abbrev pub OfReview : ReviewOutcome → Trace → Type 0
  OfReview approved = Reviewed j
  OfReview human_approved = Reviewed j
  OfReview (needs_revision feedback) = IsSafe j

  abbrev Reviews : M ReviewOutcome → Type 0
  Reviews m = Triple (On (IsSafe j)) m (λ r. On (OfReview r)) (On (IsSafe j))

  ask_human-Reviews : Reviews (ask_human o j.task.task_id)
  unfolding ask_human
  ask_human-Reviews = bind checkpoint-Triple λ d. settled d
    where
      settled :
          (d : Decision)
          → Triple
              (On (OfDecision d))
              (human_accepts j.task.task_id d)
              (λ r. On (OfReview r))
              (On (IsSafe j))
      settled Decision.proceed = pure-Triple human_approved
      settled Decision.abort = throw-Triple _ (λ s p. p)

  -- A review that the reviewing agent gave.
  abbrev OfMessage : AgentMessage → Trace → Type 0
  OfMessage msg t = IsSafe j t × (is_approve msg ≡ true → Reviewed j t)

  invoke_reviewer-Triple :
      (round : ℕ)
      → Triple
          (On (IsSafe j))
          (invoke o WorkflowPhase.review j.task.reviewing_agent j.task.task_id round)
          (λ msg. On (OfMessage msg))
          (On (IsSafe j))
  invoke_reviewer-Triple round =
      invoke-Triple o (IsSafe j) OfMessage (IsSafe j) WorkflowPhase.review j.task.reviewing_agent
        j.task.task_id round go
    where
      go :
          (t : Trace) (answer : Option AgentMessage)
          → IsSafe j t
          → Answers
              (invoked WorkflowPhase.review j.task.reviewing_agent j.task.task_id round)
              t
              OfMessage
              (IsSafe j)
              answer
      go t none s = (λ h. cc, s)
      go t (some msg) s = (
        (λ h. cc, s),
        λ ok.
            Reviewed-accept j
              (invoked WorkflowPhase.review j.task.reviewing_agent j.task.task_id round (some msg))
              t refl refl (rw (str_eq_refl j.task.reviewing_agent, str_eq_refl j.task.task_id) ok)
              s,
      )

  judge-Reviews :
      (msg : AgentMessage) (again : M ReviewOutcome) (a : Action)
      → msg.action ≡ a
      → Reviews again
      → Triple (On (OfMessage msg)) (judge o j msg again a) (λ r. On (OfReview r)) (On (IsSafe j))
  judge-Reviews msg again approve e h =
      weaken (λ s p. p.1 (rw e refl)) (pure-Triple {Q = λ r. On (OfReview r)} approved)
  judge-Reviews msg again request_changes e h =
      weaken (λ s p. p.0) (pure-Triple {Q = λ r. On (OfReview r)} (needs_revision msg.content))
  judge-Reviews msg again block e h =
      weaken (λ s p. p.0) (seq (log-Triple o j _ (IsSafe-Stage j)) ask_human-Reviews)
  judge-Reviews msg again submit e h = weaken (λ s p. p.0) h
  judge-Reviews msg again implement e h = weaken (λ s p. p.0) h
  judge-Reviews msg again comment e h = weaken (λ s p. p.0) h

  pub review_rounds-Reviews : (left round : ℕ) → Reviews (review_rounds o j left round)
  unfolding review_rounds
  review_rounds-Reviews zero round = ask_human-Reviews
  review_rounds-Reviews (suc left) round = bind (invoke_reviewer-Triple round) λ msg.
      judge-Reviews msg (review_rounds o j left (round + 1)) msg.action refl
        (review_rounds-Reviews left (round + 1))

  git_quietly-Keeps :
      (args : List String) (cwd : String)
      → ((answer : Option String) → is_merge j (Event.git args cwd answer) ≡ false)
      → Keeps (git_quietly o args cwd)
  unfolding git_quietly
  git_quietly-Keeps args cwd free = record {
    run = λ s p.
        (λ h. absurd (ground (arith, h, free (Option.map trim (o.git s.trace args cwd)))), p);
  }

  rebase_or_abort-Keeps : Keeps (rebase_or_abort o j)
  rebase_or_abort-Keeps =
      catching (bind (free_git o j _ _ (λ answer. refl)) λ r. pure-Triple tt)
        λ e. seq (git_quietly-Keeps _ _ (λ answer. refl)) (throw-Triple _ (λ s p. p))

  human_replays-Keeps :
      (d : Decision)
      → Triple (On (OfDecision d)) (human_replays j d) (λ u. On (IsSafe j)) (On (IsSafe j))
  human_replays-Keeps Decision.proceed = record { run = λ s p. p.safe }
  human_replays-Keeps Decision.abort = throw-Triple _ (λ s p. p)

  resolve_conflict-Keeps : Keeps (resolve_conflict o j)
  unfolding resolve_conflict
  resolve_conflict-Keeps = seq (log-Triple o j _ (IsSafe-Stage j)) (
      seq (git_quietly-Keeps _ _ (λ answer. refl)) (
        bind checkpoint-Triple λ d. seq (human_replays-Keeps d) (
          seq rebase_or_abort-Keeps
            (seq (log-Triple o j _ (IsSafe-Stage j)) (pure-Triple replay_required)))))

  abbrev merge_args : List String
  merge_args = "merge" ∷ "--no-ff" ∷ j.branch ∷ "-m" ∷ ("Integrate task " +++ j.task.task_id) ∷ []

  -- A merge is made at the head that was verified.
  merge_task-Keeps :
      (head : String)
      → Triple (On (Verified j head)) (merge_task o j) (λ r. On (IsSafe j)) (On (IsSafe j))
  merge_task-Keeps head =
      bind
        (neutral_git o j (Verified j head) ("checkout" ∷ j.session_branch ∷ []) j.repo_root
          (Verified-Stage j head)
          (λ answer. record {
            change = refl;
            merge = refl;
            session = refl;
            head = refl;
            verify = λ h. refl;
          }))
        λ c.
          bind (git-Triple o (Verified j head) (λ a. IsSafe j) (IsSafe j) merge_args j.repo_root go)
            λ m. pure-Triple integrated
    where
      go :
          (t : Trace) (answer : Option String)
          → Verified j head t
          → Answers (Event.git merge_args j.repo_root) t (λ a. IsSafe j) (IsSafe j) answer
      go t none v = IsSafe-merge j (Event.git merge_args j.repo_root none) head t v
      go t (some a) v = IsSafe-merge j (Event.git merge_args j.repo_root (some a)) head t v

  -- What the reading of the session's head leaves: the verified head, or another one.
  abbrev OfHead : String → String → Trace → Type 0
  OfHead head h t = IsSafe j t × (h ≡ head → Verified j head t)

  merge_at-Keeps :
      (head h : String) (b : Bool)
      → str_eq h head ≡ b
      → Triple (On (OfHead head h)) (merge_at o j b) (λ r. On (IsSafe j)) (On (IsSafe j))
  merge_at-Keeps head h false e = weaken (λ s p. p.0) (pure-Triple replay_required)
  merge_at-Keeps head h true e = weaken (λ s p. p.1 ((eq_iff h head).0 e)) (merge_task-Keeps head)

  pub integrate_task-Keeps :
      (head : String)
      → Triple (On (Verified j head)) (integrate_task o j head) (λ r. On (IsSafe j)) (On (IsSafe j))
  unfolding integrate_task
  integrate_task-Keeps head =
      catching
        (bind
          (git-Triple o (Verified j head) (OfHead head) (IsSafe j)
            ("rev-parse" ∷ j.session_branch ∷ []) j.repo_root go)
          λ h. merge_at-Keeps head h (str_eq h head) refl)
        λ e. resolve_conflict-Keeps
    where
      go :
          (t : Trace) (answer : Option String)
          → Verified j head t
          → Answers
              (Event.git ("rev-parse" ∷ j.session_branch ∷ []) j.repo_root)
              t
              (OfHead head)
              (IsSafe j)
              answer
      go t none v = (λ h. cc, v.safe)
      go t (some h) v = (
        (λ h. cc, v.safe),
        λ e.
            Verified-read j (Event.git ("rev-parse" ∷ j.session_branch ∷ []) j.repo_root (some h))
              head t refl refl (λ c. refl) (rw (str_eq_refl j.session_branch, e) refl) v,
      )

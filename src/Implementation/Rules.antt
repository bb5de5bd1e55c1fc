-- ===== src/Implementation/Rules.antt =====
-- Triples of the steps of the implementation phase over the stages of a task.
use agentic_mcp_teaming.Common.{ℕ, String, ◌≡◌, refl, Bool, false, Option, none, some, List, ◌∷◌}
use mathlib.Core.Option
use agentic_mcp_teaming.Text.{trim}
use agentic_mcp_teaming.Consensus.{AgentMessage}
use agentic_mcp_teaming.Session.{SessionState, WorkflowPhase, WorktreeStatus, TaskWorktree}
use agentic_mcp_teaming.Dict
use agentic_mcp_teaming.Machine.{
  Event, logged, saved, invoked, verified, LogEntry, Trace, Outside, Machine, Error, emit, or_throw,
  log, update, StewardVerification,
}
use agentic_mcp_teaming.Machine.Triple.{
  Ends, Triple, bind, pure-Triple, throw-Triple, get_state-Triple, update-Triple,
}
use agentic_mcp_teaming.Implementation.{Job, status_to, update_task_status}
use agentic_mcp_teaming.Implementation.Steps.{git, invoke, verify}
use agentic_mcp_teaming.Implementation.Clearance.{is_merge, IsSafe}
use agentic_mcp_teaming.Implementation.Stages.{IsNeutral, Stage, IsSafe-∷}

abbrev pub On : (Trace → Type 0) → Machine → Type 0
On P s = P s.trace

-- A call that is answered or rejected.
abbrev pub Answers :
    {A : Type 0}
    → (Option A → Event)
    → Trace
    → (A → Trace → Type 0)
    → (Trace → Type 0)
    → Option A
    → Type 0
Answers event t Q E none = E (event none ∷ t)
Answers event t Q E (some a) = Q a (event (some a) ∷ t)

answered :
    {A : Type 0} (event : Option A → Event) (Q : A → Trace → Type 0) (E : Trace → Type 0)
    (e : Error) (s : Machine) (answer : Option A)
    → Answers event s.trace Q E answer
    → Ends (λ a. On (Q a)) (On E) (or_throw e answer (emit (event answer) s))
answered event Q E e s none h = h
answered event Q E e s (some a) h = h

module _ (o : Outside) where
  pub git-Triple :
      (P : Trace → Type 0) (Q : String → Trace → Type 0) (E : Trace → Type 0) (args : List String)
      (cwd : String)
      → ((t : Trace) (answer : Option String) → P t → Answers (Event.git args cwd) t Q E answer)
      → Triple (On P) (git o args cwd) (λ a. On (Q a)) (On E)
  unfolding git
  git-Triple P Q E args cwd k = record {
    run = λ s p.
        answered (Event.git args cwd) Q E Error.git_failed s
          (Option.map trim (o.git s.trace args cwd))
          (k s.trace (Option.map trim (o.git s.trace args cwd)) p);
  }

  pub invoke-Triple :
      (P : Trace → Type 0) (Q : AgentMessage → Trace → Type 0) (E : Trace → Type 0)
      (phase : WorkflowPhase) (agent artifact : String) (round : ℕ)
      → ((t : Trace) (answer : Option AgentMessage)
          → P t
          → Answers (invoked phase agent artifact round) t Q E answer)
      → Triple (On P) (invoke o phase agent artifact round) (λ a. On (Q a)) (On E)
  unfolding invoke
  invoke-Triple P Q E phase agent artifact round k = record {
    run = λ s p.
        answered (invoked phase agent artifact round) Q E Error.agent_failed s
          (o.invoke s.trace phase agent artifact round)
          (k s.trace (o.invoke s.trace phase agent artifact round) p);
  }

  pub verify-Triple :
      (P : Trace → Type 0) (Q : StewardVerification → Trace → Type 0) (E : Trace → Type 0)
      (commit : String)
      → ((t : Trace) (answer : Option StewardVerification)
          → P t
          → Answers (verified commit) t Q E answer)
      → Triple (On P) (verify o commit) (λ a. On (Q a)) (On E)
  unfolding verify
  verify-Triple P Q E commit k = record {
    run = λ s p.
        answered (verified commit) Q E Error.verifier_rejected s (o.verify s.trace commit)
          (k s.trace (o.verify s.trace commit) p);
  }

module _ (o : Outside) (j : Job) where
  -- A git call that is no merge.
  pub free_git :
      (args : List String) (cwd : String)
      → ((answer : Option String) → is_merge j (Event.git args cwd answer) ≡ false)
      → Triple (On (IsSafe j)) (git o args cwd) (λ a. On (IsSafe j)) (On (IsSafe j))
  free_git args cwd free =
      git-Triple o (IsSafe j) (λ a. IsSafe j) (IsSafe j) args cwd λ t answer s. go t answer s
    where
      go :
          (t : Trace) (answer : Option String)
          → IsSafe j t
          → Answers (Event.git args cwd) t (λ a. IsSafe j) (IsSafe j) answer
      go t none s = IsSafe-∷ j (Event.git args cwd none) t (free none) s
      go t (some a) s = IsSafe-∷ j (Event.git args cwd (some a)) t (free (some a)) s

  -- A git call that keeps a stage.
  pub neutral_git :
      (P : Trace → Type 0) (args : List String) (cwd : String)
      → Stage j P
      → ((answer : Option String) → IsNeutral j (Event.git args cwd answer))
      → Triple (On P) (git o args cwd) (λ a. On P) (On (IsSafe j))
  neutral_git P args cwd stage n = git-Triple o P (λ a. P) (IsSafe j) args cwd go
    where
      go :
          (t : Trace) (answer : Option String)
          → P t
          → Answers (Event.git args cwd) t (λ a. P) (IsSafe j) answer
      go t none p = stage.safe _ (stage.neutral _ t (n none) p)
      go t (some a) p = stage.neutral _ t (n (some a)) p

  logged-IsNeutral : (entry : LogEntry) → IsNeutral j (logged entry)
  logged-IsNeutral entry = record {
    change = refl;
    merge = refl;
    session = refl;
    head = refl;
    verify = λ h. refl;
  }

  saved-IsNeutral : (b : Bool) → IsNeutral j (saved b)
  saved-IsNeutral b = record {
    change = refl;
    merge = refl;
    session = refl;
    head = refl;
    verify = λ h. refl;
  }

  pub log-Triple :
      {P : Trace → Type 0} (entry : LogEntry)
      → Stage j P
      → Triple (On P) (log entry) (λ u. On P) (On (IsSafe j))
  log-Triple entry stage = record {
    run = λ s p. stage.neutral (logged entry) s.trace (logged-IsNeutral entry) p;
  }

  pub saving :
      {P : Trace → Type 0} (patch : SessionState → SessionState)
      → Stage j P
      → Triple (On P) (update o patch) (λ u. On P) (On (IsSafe j))
  saving {P = P} patch stage =
      update-Triple o P (IsSafe j) patch (λ t b. stage.neutral (saved b) t (saved-IsNeutral b))
        stage.safe

  pub status-Triple :
      {P : Trace → Type 0} (task_id : String) (status : WorktreeStatus)
      → Stage j P
      → Triple (On P) (update_task_status o task_id status) (λ u. On P) (On (IsSafe j))
  unfolding update_task_status
  status-Triple {P = P} task_id status stage =
      bind {Q = λ st. On P} get_state-Triple
        λ state. of_worktree (Dict.get state.task_worktrees task_id)
    where
      of_worktree :
          (w : Option TaskWorktree)
          → Triple (On P) (status_to o task_id status w) (λ u. On P) (On (IsSafe j))
      of_worktree none = pure-Triple tt
      of_worktree (some w) = saving _ stage

  pub or_throw-Triple :
      {A : Type 0} {P : Trace → Type 0} (e : Error) (a : Option A)
      → Stage j P
      → Triple (On P) (or_throw e a) (λ a. On P) (On (IsSafe j))
  or_throw-Triple e none stage = throw-Triple e (λ s. stage.safe s.trace)
  or_throw-Triple e (some a) stage = pure-Triple a

-- ===== src/Implementation/Steps.antt =====
-- The calls that the implementation phase makes: git, agents and the verifier, and JavaScript's `try`.
use agentic_mcp_teaming.Common.{ℕ, String, List}
use mathlib.Core.Option
use agentic_mcp_teaming.Text.{trim}
use agentic_mcp_teaming.Consensus.{AgentMessage}
use agentic_mcp_teaming.Session.{WorkflowPhase}
use agentic_mcp_teaming.Machine.{
  Event, invoked, verified, StewardVerification, Outside, Machine, Error, M, Outcome, ok, err, emit,
  or_throw,
}

-- `git` in a directory: the trimmed output, or an exception.
unfoldable pub git : Outside → List String → String → M String
git o args cwd s =
    let answer = Option.map trim (o.git s.trace args cwd) in
    or_throw Error.git_failed answer (emit (Event.git args cwd answer) s)

-- `git(…).catch(() => undefined)`
unfoldable pub git_quietly : Outside → List String → String → M (Unit {0})
git_quietly o args cwd s =
    ok tt (emit (Event.git args cwd (Option.map trim (o.git s.trace args cwd))) s)

-- `invokeAgentTool`, which throws where the agent fails
unfoldable pub invoke : Outside → WorkflowPhase → String → String → ℕ → M AgentMessage
invoke o phase agent_id artifact_id round s =
    let answer = o.invoke s.trace phase agent_id artifact_id round in
    or_throw Error.agent_failed answer (emit (invoked phase agent_id artifact_id round answer) s)

-- `verifyImplementation`, which throws unless the gate passes
unfoldable pub verify : Outside → String → M StewardVerification
verify o commit s =
    let answer = o.verify s.trace commit in
    or_throw Error.verifier_rejected answer (emit (verified commit answer) s)

abbrev pub try_catch : {A : Type 0} → M A → (Error → M A) → M A
try_catch m handler s = elim (m s) [ ok a t ↦ ok a t | err e t ↦ handler e t ]

-- A `finally` block that does not throw.
abbrev pub after : {A : Type 0} → Outcome A → Outcome (Unit {0}) → Outcome A
after (ok a s) (ok u t) = ok a t
after (ok a s) (err e t) = err e t
after (err e s) (ok u t) = err e t
after (err e s) (err f t) = err f t

abbrev pub machine_of : {A : Type 0} → Outcome A → Machine
machine_of (ok a s) = s
machine_of (err e s) = s

abbrev pub finally : {A : Type 0} → M A → M (Unit {0}) → M A
finally m block s = after (m s) (block (machine_of (m s)))

-- ===== src/PeerBus/Consistent.antt =====
-- Calls whose message ids are new (src/server/tools/peer-bus.ts draws them at random), and the
-- mailboxes and the log after any number of them.
use agentic_mcp_teaming.Common.{ℕ, String, ◌≡◌, ap, ◌∙◌}
use agentic_mcp_teaming.Platform.{Platform}
use agentic_mcp_teaming.SessionRegistry.Invariant.{IsValid}
use agentic_mcp_teaming.PeerBus.{PeerBusContext, Bus, Persisted}
use agentic_mcp_teaming.PeerBus.Register.{RegisterSessionParams, register_session_tool}
use agentic_mcp_teaming.PeerBus.Register.Laws.{register_tool-IsValid}
use agentic_mcp_teaming.PeerBus.Register.Linked.{register_tool-IsLinked, register_tool-log}
use agentic_mcp_teaming.PeerBus.Send.{SendMessageParams, Io, send_message_tool}
use agentic_mcp_teaming.PeerBus.Send.Valid.{send_tool-IsValid}
use agentic_mcp_teaming.PeerBus.Read.{ReadIo, read_messages_tool}
use agentic_mcp_teaming.PeerBus.Read.Valid.{read_tool-IsValid}
use agentic_mcp_teaming.PeerBus.Read.Linked.{read_tool-IsLinked, read_tool-log}
use agentic_mcp_teaming.PeerBus.Linked.{IsLinked, IsFresh, send_tool-IsLinked, send_tool-ended}

pub data FreshStep (p : Platform) : Bus → Bus → Type 0 where
  registering :
      {b : Bus} (now : ℕ) (outcome : Persisted) (ctx : PeerBusContext) (q : RegisterSessionParams)
      (raw_token : String)
      → FreshStep p b (register_session_tool p now outcome ctx b q raw_token).1
  sending :
      {b : Bus} (io : Io) (ctx : PeerBusContext) (q : SendMessageParams)
      → IsFresh p io b q
      → FreshStep p b (send_message_tool p io ctx b q).1
  reading :
      {b : Bus} (io : ReadIo) (ctx : PeerBusContext) (token : String)
      → FreshStep p b (read_messages_tool p io ctx b token).1

pub data FreshRun (p : Platform) (start : Bus) : Bus → Type 0 where
  here : FreshRun p start start
  after_step : {b b' : Bus} → FreshRun p start b → FreshStep p b b' → FreshRun p start b'

-- A registry that is valid, with mailboxes that the log backs, and a log that ends with a line end.
pub record IsConsistent (p : Platform) (b : Bus) : Type 0 where
  pub valid : IsValid b.registry
  pub linked : IsLinked p b
  pub ended : b.log.rest ≡ ""

FreshStep-IsConsistent :
    (p : Platform) {b b' : Bus} → IsConsistent p b → FreshStep p b b' → IsConsistent p b'
FreshStep-IsConsistent p c (registering {b} now outcome ctx q raw_token) = record {
  valid = register_tool-IsValid p now outcome ctx b q raw_token c.valid;
  linked = register_tool-IsLinked p now outcome ctx b q raw_token c.valid c.linked;
  ended = ap (λ l. l.rest) (register_tool-log p now outcome ctx b q raw_token) ∙ c.ended;
}
FreshStep-IsConsistent p c (sending {b} io ctx q fresh) = record {
  valid = send_tool-IsValid p io ctx b q c.valid;
  linked = send_tool-IsLinked p io ctx b q fresh c.linked c.ended;
  ended = send_tool-ended p io ctx b q fresh c.linked c.ended;
}
FreshStep-IsConsistent p c (reading {b} io ctx token) = record {
  valid = read_tool-IsValid p io ctx b token c.valid;
  linked = read_tool-IsLinked p io ctx b token c.linked;
  ended = ap (λ l. l.rest) (read_tool-log p io ctx b token) ∙ c.ended;
}

pub FreshRun-IsConsistent :
    (p : Platform) {start b : Bus} → IsConsistent p start → FreshRun p start b → IsConsistent p b
FreshRun-IsConsistent p c here = c
FreshRun-IsConsistent p c (after_step run step) =
    FreshStep-IsConsistent p (FreshRun-IsConsistent p c run) step

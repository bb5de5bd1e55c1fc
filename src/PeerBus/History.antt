-- ===== src/PeerBus/History.antt =====
-- Calls of the three tools (src/server/tools/peer-bus.ts), one after the other. Each one is a single
-- step: a handler runs under the locks of the sessions that it changes.
use agentic_mcp_teaming.Common.{ℕ, ◌≤◌, String, ◌≡◌, some, List, length}
use agentic_mcp_teaming.Dict
use agentic_mcp_teaming.Platform.{Platform}
use agentic_mcp_teaming.SessionRegistry.{peer_bus_max_unread, empty_registry, snapshot_unread}
use agentic_mcp_teaming.SessionRegistry.Invariant.{IsValid}
use agentic_mcp_teaming.PeerBus.{PeerBusContext, Bus, Persisted}
use agentic_mcp_teaming.PeerBus.Register.{RegisterSessionParams, register_session_tool}
use agentic_mcp_teaming.PeerBus.Register.Laws.{register_tool-IsValid}
use agentic_mcp_teaming.PeerBus.Send.{SendMessageParams, Io, send_message_tool}
use agentic_mcp_teaming.PeerBus.Send.Valid.{send_tool-IsValid, snapshot_unread-bounded}
use agentic_mcp_teaming.PeerBus.Read.{ReadIo, read_messages_tool}
use agentic_mcp_teaming.PeerBus.Read.Valid.{read_tool-IsValid}

-- The state before and after a call.
pub data Step (p : Platform) : Bus → Bus → Type 0 where
  registering :
      {b : Bus} (now : ℕ) (outcome : Persisted) (ctx : PeerBusContext) (q : RegisterSessionParams)
      (raw_token : String)
      → Step p b (register_session_tool p now outcome ctx b q raw_token).1
  sending :
      {b : Bus} (io : Io) (ctx : PeerBusContext) (q : SendMessageParams)
      → Step p b (send_message_tool p io ctx b q).1
  reading :
      {b : Bus} (io : ReadIo) (ctx : PeerBusContext) (token : String)
      → Step p b (read_messages_tool p io ctx b token).1

-- The states that calls lead to from a state.
pub data Reachable (p : Platform) (start : Bus) : Bus → Type 0 where
  here : Reachable p start start
  after_step : {b b' : Bus} → Reachable p start b → Step p b b' → Reachable p start b'

Step-IsValid : (p : Platform) {b b' : Bus} → IsValid b.registry → Step p b b' → IsValid b'.registry
Step-IsValid p v (registering {b} now outcome ctx q raw_token) =
    register_tool-IsValid p now outcome ctx b q raw_token v
Step-IsValid p v (sending {b} io ctx q) = send_tool-IsValid p io ctx b q v
Step-IsValid p v (reading {b} io ctx token) = read_tool-IsValid p io ctx b token v

-- Whatever calls are made, and wherever they fail, a valid registry stays valid.
pub Reachable-IsValid :
    (p : Platform) {start b : Bus}
    → IsValid start.registry
    → Reachable p start b
    → IsValid b.registry
Reachable-IsValid p v here = v
Reachable-IsValid p v (after_step reached step) =
    Step-IsValid p (Reachable-IsValid p v reached) step

-- From a bus without sessions no sequence of calls makes a mailbox longer than the limit.
pub Reachable-mailbox_bounded :
    (p : Platform) (start b : Bus) (name : String) (ids : List String)
    → start.registry ≡ empty_registry
    → Reachable p start b
    → snapshot_unread b.registry name ≡ some ids
    → length ids ≤ peer_bus_max_unread
Reachable-mailbox_bounded p start b name ids fresh reached has_ids =
    snapshot_unread-bounded b.registry name ids
      (Reachable-IsValid p (rw fresh empty-IsValid) reached) has_ids
  where
    empty-IsValid : IsValid empty_registry
    empty-IsValid = record { at = λ key e h. absurd (unfold Dict.get in cc h) }

-- ===== src/PeerBus/Read.antt =====
-- `readMessagesTool` (src/server/tools/peer-bus.ts). The model of `drainUnread` does not throw, so
-- the branch that catches an exception of it is not reached.
pub mod Laws
pub mod Valid
pub mod Linked
use agentic_mcp_teaming.Common.{
  ℕ, String, Bool, not, Option, none, some, List, [], ◌∷◌, length, if◌then◌else◌,
}
use agentic_mcp_teaming.Platform.{Platform}
use agentic_mcp_teaming.Message.{load_all, peer_bus_max_response_bytes}
use agentic_mcp_teaming.SessionRegistry.{SessionEntry, touch, snapshot_unread, restore_unread}
use agentic_mcp_teaming.SessionRegistry.Auth.{authenticate}
use agentic_mcp_teaming.SessionRegistry.Drain.{DrainResult, drain_unread}
use agentic_mcp_teaming.PeerBus.{
  Code, Reply, received, error, PeerBusContext, Effect, clear_cmux_badge, read_messages,
  read_rejected, Bus, Persisted, saved, with_registry, persist, audited, started,
}
use agentic_mcp_teaming.PeerBus.Envelope.{wrap_envelope}

pub record ReadIo : Type 0 where
  pub auth_time : ℕ
  pub lock_time : ℕ
  pub load_works : Bool
  pub persisted : Persisted

abbrev restore : Bus → String → Option (List String) → Bus
restore b name none = b
restore b name (some ids) = with_registry b (restore_unread b.registry name ids)

abbrev cleared_badge : PeerBusContext → Option String → List Effect
cleared_badge ctx none = []
cleared_badge ctx (some workspace_id) =
    if ctx.clears_cmux_badge then clear_cmux_badge workspace_id ∷ [] else []

abbrev after_persist :
    PeerBusContext
    → Persisted
    → Bus
    → SessionEntry
    → Option (List String)
    → DrainResult
    → Reply × Bus
after_persist ctx saved b caller snapshot drained =
    let b' = audited b (read_messages (length drained.messages) drained.has_more) in
    (received drained, started b' (cleared_badge ctx caller.cmux_workspace_id))
after_persist ctx _ b caller snapshot drained =
    (error Code.response_internal_error, restore b caller.name snapshot)

-- The section under the caller's lock; the log is read inside it.
unfoldable pub read_locked : Platform → ReadIo → PeerBusContext → Bus → SessionEntry → Reply × Bus
unfolding load_all snapshot_unread drain_unread touch persist restore_unread wrap_envelope
read_locked p io ctx b caller =
    if not io.load_works
    then (error Code.response_internal_error, b)
    else let lookup = load_all p b.log in
      let snapshot = snapshot_unread b.registry caller.name in
      let (drained, r) =
        drain_unread p b.registry caller.name lookup (wrap_envelope p)
          peer_bus_max_response_bytes in
      let r' = touch p io.lock_time r caller.name in
      after_persist ctx io.persisted (persist p io.persisted (with_registry b r')) caller snapshot
        drained

abbrev read_authenticated :
    Platform → ReadIo → PeerBusContext → Bus → Option SessionEntry → Reply × Bus
read_authenticated p io ctx b none = (error Code.invalid_session_token, audited b read_rejected)
read_authenticated p io ctx b (some caller) =
    let b' = with_registry b (touch p io.auth_time b.registry caller.name) in
    read_locked p io ctx b' caller

unfoldable pub read_messages_tool : Platform → ReadIo → PeerBusContext → Bus → String → Reply × Bus
unfolding authenticate touch read_locked
read_messages_tool p io ctx b session_token =
    read_authenticated p io ctx b (authenticate p b.registry session_token)

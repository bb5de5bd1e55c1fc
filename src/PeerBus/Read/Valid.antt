-- ===== src/PeerBus/Read/Valid.antt =====
-- `readMessagesTool` keeps the registry valid (src/server/tools/peer-bus.ts).
use agentic_mcp_teaming.Common.{String, ◌≡◌, refl, inl, inr, Option, none, some, List, Bool-cases}
use agentic_mcp_teaming.Platform.{Platform}
use agentic_mcp_teaming.Message.{load_all, peer_bus_max_response_bytes}
use agentic_mcp_teaming.SessionRegistry.{SessionEntry, SessionRegistry, touch, snapshot_unread}
use agentic_mcp_teaming.SessionRegistry.Auth.{authenticate}
use agentic_mcp_teaming.SessionRegistry.Drain.{DrainResult}
use agentic_mcp_teaming.SessionRegistry.Invariant.{
  IsValid, touch-IsValid, drain_unread-IsValid, restore_unread-IsValid,
}
use agentic_mcp_teaming.PeerBus.{
  PeerBusContext, Bus, Persisted, saved, failed_before_rename, failed_after_rename, persist,
}
use agentic_mcp_teaming.PeerBus.Envelope.{wrap_envelope}
use agentic_mcp_teaming.PeerBus.Send.Valid.{snapshot_unread-bounded}
use agentic_mcp_teaming.PeerBus.Read.{
  ReadIo, after_persist, read_locked, read_authenticated, read_messages_tool,
}

module _ (p : Platform) (io : ReadIo) (ctx : PeerBusContext) (b : Bus) where
  restored-IsValid :
      (r : SessionRegistry) (o : Persisted) (b' : Bus) (caller : SessionEntry)
      (snapshot : Option (List String)) (result : DrainResult)
      → snapshot_unread r caller.name ≡ snapshot
      → IsValid r
      → IsValid b'.registry
      → IsValid (after_persist ctx o (persist p o b') caller snapshot result).1.registry
  unfolding persist
  restored-IsValid r saved b' caller snapshot result h v v' = v'
  restored-IsValid r failed_before_rename b' caller none result h v v' = v'
  restored-IsValid r failed_after_rename b' caller none result h v v' = v'
  restored-IsValid r failed_before_rename b' caller (some ids) result h v v' =
      restore_unread-IsValid b'.registry caller.name ids v'
        (snapshot_unread-bounded r caller.name ids v h)
  restored-IsValid r failed_after_rename b' caller (some ids) result h v v' =
      restore_unread-IsValid b'.registry caller.name ids v'
        (snapshot_unread-bounded r caller.name ids v h)

  read_authenticated-IsValid :
      (o : Option SessionEntry)
      → IsValid b.registry
      → IsValid (read_authenticated p io ctx b o).1.registry
  unfolding read_locked
  read_authenticated-IsValid none v = v
  read_authenticated-IsValid (some caller) v =
      let r = touch p io.auth_time b.registry caller.name in
      let v' = touch-IsValid p io.auth_time b.registry caller.name v in
      elim (Bool-cases io.load_works) [
        | inr broken ↦ rw broken v'
        | inl works ↦ rw works (
            restored-IsValid r io.persisted _ caller _ _ refl v' (
              touch-IsValid p io.lock_time _ caller.name (
                drain_unread-IsValid p r caller.name (load_all p b.log) (wrap_envelope p)
                  peer_bus_max_response_bytes v')))
      ]

  -- Every call keeps the registry valid.
  pub read_tool-IsValid :
      (token : String)
      → IsValid b.registry
      → IsValid (read_messages_tool p io ctx b token).1.registry
  unfolding read_messages_tool
  read_tool-IsValid token v = read_authenticated-IsValid (authenticate p b.registry token) v

-- ===== src/PeerBus/Send/Valid.antt =====
-- `sendMessageTool` keeps the registry valid (src/server/tools/peer-bus.ts).
use agentic_mcp_teaming.Common.{
  ℕ, String, ◌≡◌, refl, inl, inr, Option, none, some, List, arith, Option-cases, Bool-cases, ltb,
  length, ◌≤◌,
}
use agentic_mcp_teaming.Dict
use agentic_mcp_teaming.Platform.{Platform, Json}
use agentic_mcp_teaming.Patterns.{session_name_regex}
use agentic_mcp_teaming.Message.{
  PeerMessage, PeerMessageKind, compute_body_byte_length, peer_bus_max_body_bytes,
}
use agentic_mcp_teaming.SessionRegistry
use agentic_mcp_teaming.SessionRegistry.{
  SessionEntry, SessionRegistry, can_add_unread, snapshot_unread, peer_bus_max_unread,
}
use agentic_mcp_teaming.SessionRegistry.Auth.{authenticate}
use agentic_mcp_teaming.SessionRegistry.Invariant.{
  IsValid, touch-IsValid, add_unread-IsValid, restore_unread-IsValid,
}
use agentic_mcp_teaming.PeerBus.{
  PeerBusContext, Bus, Persisted, saved, failed_before_rename, failed_after_rename, persist,
}
use agentic_mcp_teaming.PeerBus.Send.{
  SendMessageParams, Io, parse_send, normal_body, body_ok, Delivery, refused, delivered, Appending,
  written, not_written, not_synced, deliver_appended, on_append, deliver, conclude, envelope,
  send_body, send_authenticated, send_parsed, send_message_tool, after_persist,
}

-- A mailbox of a valid registry is within the limit.
pub snapshot_unread-bounded :
    (r : SessionRegistry) (name : String) (ids : List String)
    → IsValid r
    → snapshot_unread r name ≡ some ids
    → length ids ≤ peer_bus_max_unread
unfolding snapshot_unread
snapshot_unread-bounded r name ids v h = elim (Option-cases (Dict.get r.sessions name)) [
  | inl e ↦ absurd (ground (arith, e, h))
  | inr (x, e) ↦ ground (arith, e, h, (v.at name x e).bounded)
]

module _ (p : Platform) (io : Io) where
  restored-IsValid :
      (r : SessionRegistry) (o : Persisted) (b : Bus) (to : String) (count : ℕ)
      (snapshot : Option (List String))
      → snapshot_unread r to ≡ snapshot
      → IsValid r
      → IsValid b.registry
      → IsValid (after_persist o (persist p o b) to snapshot count).1.registry
  unfolding persist
  restored-IsValid r saved b to count snapshot h v v' = v'
  restored-IsValid r failed_before_rename b to count none h v v' = v'
  restored-IsValid r failed_after_rename b to count none h v v' = v'
  restored-IsValid r failed_before_rename b to count (some ids) h v v' =
      restore_unread-IsValid b.registry to ids v' (snapshot_unread-bounded r to ids v h)
  restored-IsValid r failed_after_rename b to count (some ids) h v v' =
      restore_unread-IsValid b.registry to ids v' (snapshot_unread-bounded r to ids v h)

  on_append-IsValid :
      (b : Bus) (from : SessionEntry) (m : PeerMessage) (a : Appending)
      → IsValid b.registry
      → IsValid (on_append p io b from m a).1.registry
  unfolding deliver_appended
  on_append-IsValid b from m not_written v = v
  on_append-IsValid b from m not_synced v = v
  on_append-IsValid b from m written v =
      restored-IsValid b.registry io.persisted _ m.to _ (snapshot_unread b.registry m.to) refl v (
        touch-IsValid p io.lock_time _ m.to (
          touch-IsValid p io.lock_time _ from.name
            (add_unread-IsValid b.registry m.to m.message_id v)))

  deliver-IsValid :
      (b : Bus) (from : SessionEntry) (m : PeerMessage)
      → IsValid b.registry
      → IsValid (deliver p io b from m).1.registry
  unfolding deliver
  deliver-IsValid b from m v = elim (Bool-cases (can_add_unread b.registry m.to)) [
    | inr full ↦ rw full v
    | inl room ↦ rw room (on_append-IsValid b from m io.appended v)
  ]

  module _ (ctx : PeerBusContext) (b : Bus) (q : SendMessageParams) where
    conclude-IsValid :
        (m : PeerMessage) (out : Delivery × Bus)
        → IsValid out.1.registry
        → IsValid (conclude ctx m out).1.registry
    conclude-IsValid m (refused code, b') v = v
    conclude-IsValid m (delivered n, b') v = v

    send_body-IsValid :
        (b' : Bus) (kind : PeerMessageKind) (from : SessionEntry) (body : Option Json)
        → IsValid b'.registry
        → IsValid (send_body p io ctx b' q kind from body).1.registry
    send_body-IsValid b' kind from none v = v
    send_body-IsValid b' kind from (some body) v =
        elim (Bool-cases (ltb peer_bus_max_body_bytes (compute_body_byte_length p body))) [
          | inl large ↦ rw large v
          | inr fits ↦ elim (Bool-cases (SessionRegistry.has b'.registry q.to)) [
            | inr unknown ↦ rw (fits, unknown) v
            | inl known ↦
                let m = envelope p io q kind from body in
                rw (fits, known)
                  (conclude-IsValid m (deliver p io b' from m) (deliver-IsValid b' from m v))
          ]
        ]

    send_authenticated-IsValid :
        (kind : PeerMessageKind) (body : Option Json) (o : Option SessionEntry)
        → IsValid b.registry
        → IsValid (send_authenticated p io ctx b q kind body o).1.registry
    send_authenticated-IsValid kind body none v = v
    send_authenticated-IsValid kind body (some from) v =
        let v' = touch-IsValid p io.auth_time b.registry from.name v in
        elim (Bool-cases (session_name_regex q.to)) [
          | inr bad ↦ rw bad v'
          | inl good ↦ elim (Bool-cases (body_ok kind body)) [
            | inr bad ↦ rw (good, bad) v'
            | inl fine ↦ rw (good, fine) (send_body-IsValid _ kind from body v')
          ]
        ]

    send_parsed-IsValid :
        (kind : Option PeerMessageKind)
        → IsValid b.registry
        → IsValid (send_parsed p io ctx b q kind).1.registry
    send_parsed-IsValid none v = v
    send_parsed-IsValid (some kind) v =
        send_authenticated-IsValid kind (normal_body p kind q.body)
          (authenticate p b.registry q.session_token) v

    -- Every call keeps the registry valid: no mailbox grows beyond the limit.
    pub send_tool-IsValid : IsValid b.registry → IsValid (send_message_tool p io ctx b q).1.registry
    unfolding send_message_tool
    send_tool-IsValid v = send_parsed-IsValid (parse_send q) v

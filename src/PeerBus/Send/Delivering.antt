-- ===== src/PeerBus/Send/Delivering.antt =====
-- The section of `sendMessageTool` under the locks (src/server/tools/peer-bus.ts).
use agentic_mcp_teaming.Common.{
  ℕ, String, ◌≡◌, refl, ◌∙◌, ◌⊎◌, inl, inr, true, some, List, arith, Option-cases, Bool-cases,
}
use agentic_mcp_teaming.Dict
use agentic_mcp_teaming.Platform.{Platform}
use agentic_mcp_teaming.Message.{PeerMessage, append}
use agentic_mcp_teaming.SessionRegistry
use agentic_mcp_teaming.SessionRegistry.{
  SessionEntry, SessionRegistry, touch, can_add_unread, add_unread, snapshot_unread, restore_unread,
}
use agentic_mcp_teaming.SessionRegistry.Disk.{registry_json}
use agentic_mcp_teaming.SessionRegistry.Unread.{
  Quiet, Added, touch-Quiet, add_unread-Added, restore_unread-Quiet,
}
use agentic_mcp_teaming.PeerBus.{
  Code, Bus, Persisted, saved, failed_before_rename, failed_after_rename, persist,
}
use agentic_mcp_teaming.PeerBus.Send.{
  Io, Appending, written, not_written, not_synced, Delivery, refused, delivered, deliver_appended,
  on_append, deliver, unread_count, after_persist,
}

room_has-unread :
    (r : SessionRegistry) (name : String)
    → can_add_unread r name ≡ true
    → (ids : List String) × (snapshot_unread r name ≡ some ids)
unfolding can_add_unread snapshot_unread
room_has-unread r name room = elim (Option-cases (Dict.get r.sessions name)) [
  | inl e ↦ absurd (ground (arith, e, room))
  | inr (x, e) ↦ (x.unread_message_ids, rw e refl)
]

-- The section under the locks: it is refused with every mailbox as it was, or the id is in the
-- recipient's mailbox, the envelope in the log, and the file holds the new registry.
module _ (p : Platform) (io : Io) (from : SessionEntry) (m : PeerMessage) where
  abbrev pub Delivered : Bus → Delivery × Bus → Type 0
  Delivered b out =
      (count : ℕ) × (out.0 ≡ delivered count)
      × Added m.to m.message_id b.registry out.1.registry
      × (out.1.log ≡ append p b.log m)
      × (out.1.disk ≡ some (p.stringify (registry_json out.1.registry)))

  abbrev pub Refused : Bus → Delivery × Bus → Type 0
  Refused b out = (code : Code) × (out.0 ≡ refused code) × Quiet b.registry out.1.registry

  abbrev touched : SessionRegistry → SessionRegistry
  touched r =
      touch p io.lock_time (touch p io.lock_time (add_unread r m.to m.message_id).1 from.name) m.to

  touched-Added :
      (r : SessionRegistry) → can_add_unread r m.to ≡ true → Added m.to m.message_id r (touched r)
  touched-Added r room j =
      touch-Quiet p io.lock_time (touch p io.lock_time (add_unread r m.to m.message_id).1 from.name)
        m.to j
      ∙ touch-Quiet p io.lock_time (add_unread r m.to m.message_id).1 from.name j
      ∙ add_unread-Added r m.to m.message_id room j

  after_persist-cases :
      (o : Persisted) (b b' : Bus) (ids : List String) (count : ℕ)
      → snapshot_unread b.registry m.to ≡ some ids
      → Added m.to m.message_id b.registry b'.registry
      → b'.log ≡ append p b.log m
      → Refused b (after_persist o (persist p o b') m.to (some ids) count)
        ⊎ Delivered b (after_persist o (persist p o b') m.to (some ids) count)
  unfolding persist
  after_persist-cases saved b b' ids count before added logged =
      inr (count, refl, added, logged, refl)
  after_persist-cases failed_before_rename b b' ids count before added logged = inl (
    Code.response_internal_error,
    refl,
    restore_unread-Quiet b.registry b'.registry m.to _ ids before added,
  )
  after_persist-cases failed_after_rename b b' ids count before added logged = inl (
    Code.response_internal_error,
    refl,
    restore_unread-Quiet b.registry b'.registry m.to _ ids before added,
  )

  on_append-cases :
      (b : Bus) (a : Appending)
      → can_add_unread b.registry m.to ≡ true
      → Refused b (on_append p io b from m a) ⊎ Delivered b (on_append p io b from m a)
  unfolding deliver_appended
  on_append-cases b not_written room = inl (Code.response_internal_error, refl, λ j. refl)
  on_append-cases b not_synced room = inl (Code.response_internal_error, refl, λ j. refl)
  on_append-cases b written room =
      let (ids, before) = room_has-unread b.registry m.to room in
      rw before (
        after_persist-cases io.persisted b
          (record b { log = append p b.log m; registry = touched b.registry }) ids
          (unread_count (SessionRegistry.get (touched b.registry) m.to)) before
          (touched-Added b.registry room) refl)

  pub deliver-cases :
      (b : Bus) → Refused b (deliver p io b from m) ⊎ Delivered b (deliver p io b from m)
  unfolding deliver
  deliver-cases b = elim (Bool-cases (can_add_unread b.registry m.to)) [
    | inr full ↦ inl (Code.mailbox_full, rw full refl, rw full (λ j. refl))
    | inl room ↦ rw room (on_append-cases b io.appended room)
  ]

-- ===== src/PeerBus/Read/Laws.antt =====
-- What a call of `readMessagesTool` leaves behind (src/server/tools/peer-bus.ts).
use agentic_mcp_teaming.Common.{
  String, ◌≡◌, refl, ap, ◌∙◌, ◌⊎◌, inl, inr, Option, none, some, List, arith, Bool-cases,
}
use agentic_mcp_teaming.Platform.{Platform}
use agentic_mcp_teaming.Message.{load_all, peer_bus_max_response_bytes}
use agentic_mcp_teaming.SessionRegistry.{
  SessionEntry, SessionRegistry, touch, snapshot_unread, restore_unread,
}
use agentic_mcp_teaming.SessionRegistry.Auth.{authenticate}
use agentic_mcp_teaming.SessionRegistry.Drain.{DrainResult, drain_unread, remaining, taken_of}
use agentic_mcp_teaming.SessionRegistry.Disk.{registry_json}
use agentic_mcp_teaming.SessionRegistry.Unread.{
  Quiet, Changed, Changed-none, touch-Quiet, restore_unread-Quiet, drain_unread-Changed,
}
use agentic_mcp_teaming.PeerBus.{
  Code, Reply, received, error, PeerBusContext, Bus, Persisted, saved, failed_before_rename,
  failed_after_rename, with_registry, persist,
}
use agentic_mcp_teaming.PeerBus.Envelope.{wrap_envelope}
use agentic_mcp_teaming.PeerBus.Read.{
  ReadIo, after_persist, restore, read_locked, read_authenticated, read_messages_tool,
}

module _ (p : Platform) (io : ReadIo) (ctx : PeerBusContext) (b : Bus) (token : String) where
  abbrev tool : Reply × Bus
  tool = read_messages_tool p io ctx b token

  -- The registry when the caller's lock is taken.
  abbrev pub at_lock : SessionEntry → SessionRegistry
  at_lock caller = touch p io.auth_time b.registry caller.name

  abbrev pub drained : SessionEntry → DrainResult × SessionRegistry
  drained caller =
      drain_unread p (at_lock caller) caller.name (load_all p b.log) (wrap_envelope p)
        peer_bus_max_response_bytes

  -- No mailbox changed, and an error; or what `drainUnread` gives is the reply, and is on the file.
  abbrev pub Silent : Reply × Bus → Type 0
  Silent out = (code : Code) × (out.0 ≡ error code) × Quiet b.registry out.1.registry

  abbrev pub Went : Reply × Bus → Type 0
  Went out =
      (caller : SessionEntry) × (authenticate p b.registry token ≡ some caller)
      × (out.0 ≡ received (drained caller).0)
      × Quiet (drained caller).1 out.1.registry
      × (out.1.disk ≡ some (p.stringify (registry_json out.1.registry)))

  abbrev pub left : List String → List String
  left ids =
      let lookup = load_all p b.log in
      remaining lookup (taken_of p lookup (wrap_envelope p) peer_bus_max_response_bytes ids).drained
        ids

  abbrev touched : SessionEntry → SessionRegistry
  touched caller = touch p io.lock_time (drained caller).1 caller.name

  pub touched-Changed :
      (caller : SessionEntry) → Changed caller.name left (at_lock caller) (touched caller)
  touched-Changed caller j =
      touch-Quiet p io.lock_time (drained caller).1 caller.name j
      ∙ drain_unread-Changed p (at_lock caller) caller.name (load_all p b.log) (wrap_envelope p)
          peer_bus_max_response_bytes j

  -- The state that is persisted, after which only the file can fail.
  abbrev persisted : SessionEntry → Persisted → Reply × Bus
  persisted caller o =
      let b' = with_registry b (touched caller) in
      after_persist ctx o (persist p o b') caller (snapshot_unread (at_lock caller) caller.name)
        (drained caller).0

  undone :
      (caller : SessionEntry) (b' : Bus) (snapshot : Option (List String))
      → snapshot_unread (at_lock caller) caller.name ≡ snapshot
      → b'.registry ≡ touched caller
      → Quiet b.registry (restore b' caller.name snapshot).registry
  undone caller b' none before same j =
      ap (λ r. snapshot_unread r j) same
      ∙ Changed-none (at_lock caller) (touched caller) caller.name left before
          (touched-Changed caller) j
      ∙ touch-Quiet p io.auth_time b.registry caller.name j
  undone caller b' (some ids) before same j =
      ap (λ r. snapshot_unread (restore_unread r caller.name ids) j) same
      ∙ restore_unread-Quiet (at_lock caller) (touched caller) caller.name left ids before
          (touched-Changed caller) j
      ∙ touch-Quiet p io.auth_time b.registry caller.name j

  persisted-cases :
      (caller : SessionEntry) (o : Persisted)
      → authenticate p b.registry token ≡ some caller
      → Silent (persisted caller o) ⊎ Went (persisted caller o)
  unfolding persist
  persisted-cases caller saved auth =
      inr (caller, auth, refl, touch-Quiet p io.lock_time (drained caller).1 caller.name, refl)
  persisted-cases caller failed_before_rename auth =
      inl (Code.response_internal_error, refl, undone caller _ _ refl refl)
  persisted-cases caller failed_after_rename auth =
      inl (Code.response_internal_error, refl, undone caller _ _ refl refl)

  read_authenticated-cases :
      (o : Option SessionEntry)
      → authenticate p b.registry token ≡ o
      → Silent (read_authenticated p io ctx b o) ⊎ Went (read_authenticated p io ctx b o)
  unfolding read_locked
  read_authenticated-cases none auth = inl (Code.invalid_session_token, refl, λ j. refl)
  read_authenticated-cases (some caller) auth = elim (Bool-cases io.load_works) [
    | inr broken ↦ inl (
      Code.response_internal_error,
      rw broken refl,
      rw broken (touch-Quiet p io.auth_time b.registry caller.name),
    )
    | inl works ↦ rw works (persisted-cases caller io.persisted auth)
  ]

  pub read_tool-cases : Silent tool ⊎ Went tool
  unfolding read_messages_tool
  read_tool-cases = read_authenticated-cases (authenticate p b.registry token) refl

  -- A call that replies with messages was made with the token of a session; the reply is what
  -- `drainUnread` took of that session's mailbox with the log as it is, the mailboxes are those that it
  -- left, and the file holds the new registry.
  pub read_tool_drains :
      (result : DrainResult)
      → tool.0 ≡ received result
      → (caller : SessionEntry) × (authenticate p b.registry token ≡ some caller)
        × (result ≡ (drained caller).0)
        × Quiet (drained caller).1 tool.1.registry
        × (tool.1.disk ≡ some (p.stringify (registry_json tool.1.registry)))
  read_tool_drains result success = elim read_tool-cases [
    | inl (_, failed, _) ↦ cc
    | inr (caller, auth, reply, quiet, disk) ↦
        (caller, auth, ground (arith, reply, success), quiet, disk)
  ]

  -- A call that replies with an error leaves every mailbox as it was: no message is lost.
  pub read_tool_undoes :
      (code : Code)
      → tool.0 ≡ error code
      → (j : String) → snapshot_unread tool.1.registry j ≡ snapshot_unread b.registry j
  read_tool_undoes code failed j = elim read_tool-cases [
    | inl (_, _, quiet) ↦ quiet j
    | inr (_, _, reply, _, _) ↦ cc
  ]

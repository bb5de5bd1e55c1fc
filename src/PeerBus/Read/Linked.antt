-- ===== src/PeerBus/Read/Linked.antt =====
-- `readMessagesTool` keeps the mailboxes linked to the log (src/server/tools/peer-bus.ts).
use mathlib.Core.Option
use mathlib.Core.Option.{some-injective}
use agentic_mcp_teaming.Common.{
  String, ◌≡◌, refl, sym, ap, ◌∙◌, inl, inr, Bool, arith, Option, none, some, List, [], ◌∷◌, All,
  keep, str_eq, subst, Bool-cases, if◌then◌else◌,
}
use agentic_mcp_teaming.Platform.{Platform}
use agentic_mcp_teaming.Message.{load_all, peer_bus_max_response_bytes}
use agentic_mcp_teaming.SessionRegistry.{SessionEntry, snapshot_unread}
use agentic_mcp_teaming.SessionRegistry.Auth.{authenticate}
use agentic_mcp_teaming.SessionRegistry.Drain.{DrainResult, remaining, stays}
use agentic_mcp_teaming.SessionRegistry.Unread.{touch-Quiet, drain_unread-Changed}
use agentic_mcp_teaming.SessionRegistry.Disk.Reconciled.{AddressedTo}
use agentic_mcp_teaming.PeerBus.{
  Bus, PeerBusContext, Persisted, Reply, saved, failed_before_rename, failed_after_rename, persist,
}
use agentic_mcp_teaming.PeerBus.Envelope.{wrap_envelope}
use agentic_mcp_teaming.PeerBus.Linked.{IsLinked}
use agentic_mcp_teaming.PeerBus.Read.{
  ReadIo, read_messages_tool, read_locked, read_authenticated, after_persist,
}
use agentic_mcp_teaming.PeerBus.Read.Laws.{read_tool-cases, left, at_lock}

All-sub {ℓ} :
    (P : String → Type ℓ) (f : String → Bool) (ids : List String) → All P ids → All P (keep f ids)
unfolding keep
All-sub P f [] h = tt
All-sub P f (id ∷ ids) h = elim (Bool-cases (f id)) [
  | inl here ↦ rw here (h.0, All-sub P f ids h.1)
  | inr gone ↦ rw gone (All-sub P f ids h.1)
]

module _ (p : Platform) (io : ReadIo) (ctx : PeerBusContext) (b : Bus) (token : String) where
  settled-log :
      (caller : SessionEntry) (o : Persisted) (b' : Bus) (snapshot : Option (List String))
      (r : DrainResult)
      → (after_persist ctx o (persist p o b') caller snapshot r).1.log ≡ b'.log
  unfolding persist
  settled-log caller saved b' snapshot r = refl
  settled-log caller failed_before_rename b' none r = refl
  settled-log caller failed_before_rename b' (some ids) r = refl
  settled-log caller failed_after_rename b' none r = refl
  settled-log caller failed_after_rename b' (some ids) r = refl

  read_locked-log :
      (caller : SessionEntry) (b' : Bus) → (read_locked p io ctx b' caller).1.log ≡ b'.log
  unfolding read_locked
  read_locked-log caller b' = elim (Bool-cases io.load_works) [
    | inr broken ↦ rw broken refl
    | inl works ↦
        rw works (settled-log caller io.persisted _ (snapshot_unread b'.registry caller.name) _)
  ]

  read_authenticated-log :
      (o : Option SessionEntry) → (read_authenticated p io ctx b o).1.log ≡ b.log
  read_authenticated-log none = refl
  read_authenticated-log (some caller) = read_locked-log caller _

  abbrev tool : Reply × Bus
  tool = read_messages_tool p io ctx b token

  pub read_tool-log : tool.1.log ≡ b.log
  unfolding read_messages_tool
  read_tool-log = read_authenticated-log (authenticate p b.registry token)

  module _ (linked : IsLinked p b) where
    abbrev Good : String → List String → Type 0
    Good name ids = All (AddressedTo (load_all p b.log) name) ids

    drained-Good :
        (caller : SessionEntry) (name : String) (ids : List String) (before : Option (List String))
        → snapshot_unread b.registry name ≡ before
        → (if str_eq caller.name name then Option.map (left p io ctx b token) before else before)
          ≡ some ids
        → Good name ids
    unfolding remaining
    drained-Good caller name ids none there h = elim (Bool-cases (str_eq caller.name name)) [
      | inl same ↦ absurd (ground (arith, same, h))
      | inr other ↦ absurd (ground (arith, other, h))
    ]
    drained-Good caller name ids (some xs) there h = elim (Bool-cases (str_eq caller.name name)) [
      | inr other ↦ linked.at name ids (there ∙ (rw other at h))
      | inl same ↦ subst (Good name) (some-injective _ _ (rw same at h)) (
          All-sub (AddressedTo (load_all p b.log) name) (stays (load_all p b.log) _) xs
            (linked.at name xs there))
    ]

    mailbox-Good :
        (name : String) (ids : List String)
        → snapshot_unread tool.1.registry name ≡ some ids
        → Good name ids
    mailbox-Good name ids h = elim (read_tool-cases p io ctx b token) [
      | inl (_, _, quiet) ↦ linked.at name ids (sym (quiet name) ∙ h)
      | inr (caller, _, _, quiet, _) ↦
          let changed =
            drain_unread-Changed p (at_lock p io ctx b token caller) caller.name (load_all p b.log)
              (wrap_envelope p) peer_bus_max_response_bytes name in
          drained-Good caller name ids (snapshot_unread b.registry name) refl (
            sym (
              quiet name
              ∙ changed
              ∙ ap
                  (λ o. if str_eq caller.name name then Option.map (left p io ctx b token) o else o)
                  (touch-Quiet p io.auth_time b.registry caller.name name))
            ∙ h)
    ]

    pub read_tool-IsLinked : IsLinked p tool.1
    read_tool-IsLinked = record {
      at = λ name ids h.
          subst (λ l. All (AddressedTo (load_all p l) name) ids) (sym read_tool-log)
            (mailbox-Good name ids h);
    }

-- ===== src/PeerBus/Bootstrap/Laws.antt =====
-- The bus that `bootstrapPeerBus` (src/core/peer-bus-bootstrap.ts) brings online.
use mathlib.Core.Option
use mathlib.Core.Option.{some-injective}
use agentic_mcp_teaming.Common.{
  ◌≤◌, String, ◌≡◌, refl, sym, ap, ◌∙◌, inl, inr, Bool, true, false, Option, some, List, arith,
  length, All, Option-cases, subst,
}
use agentic_mcp_teaming.Dict.{Dict}
use agentic_mcp_teaming.Dict
use agentic_mcp_teaming.Platform.{Platform}
use agentic_mcp_teaming.Message.{MessageLog, load_all}
use agentic_mcp_teaming.SessionRegistry.{
  SessionEntry, SessionRegistry, empty_registry, snapshot_unread, peer_bus_max_unread,
}
use agentic_mcp_teaming.SessionRegistry.Disk.{Summary, load, reconcile, registry_json}
use agentic_mcp_teaming.SessionRegistry.Disk.Loaded.{LoadOk, load-LoadOk}
use agentic_mcp_teaming.SessionRegistry.Disk.Reconciled.{
  AddressedTo, reconciled, reconcile_lem, reconcile_sound,
}
use agentic_mcp_teaming.PeerBus.{
  Bus, Persisted, saved, failed_before_rename, failed_after_rename, persist,
}
use agentic_mcp_teaming.PeerBus.Consistent.{IsConsistent, FreshRun, FreshRun-IsConsistent}
use agentic_mcp_teaming.PeerBus.Bootstrap.{
  SessionFiles, Bootstrap, online, touched_log, wired, bootstrap_peer_bus,
}

-- What a coordinator has read: the registry that is left after the reconciliation.
module _ (p : Platform) (file : Option String) (log : MessageLog) where
  abbrev before : SessionRegistry
  before = load p file empty_registry

  abbrev after : SessionRegistry
  after = (reconcile before (load_all p log)).1

  after-get :
      (name : String)
      → Dict.get after.sessions name
        ≡ Option.map (reconciled (load_all p log)) (Dict.get before.sessions name)
  after-get name =
      ap (λ d. Dict.get d name) (reconcile_lem before (load_all p log))
      ∙ Dict.get-map_values (reconciled (load_all p log)) before.sessions name

  -- Names, keys and wake targets are as `load` accepts them.
  after-LoadOk :
      (key : String) (e : SessionEntry) → Dict.get after.sessions key ≡ some e → LoadOk key e
  after-LoadOk key e there = elim (Option-cases (Dict.get before.sessions key)) [
    | inl absent ↦ absurd (ground (arith, after-get key, absent, there))
    | inr (x, found) ↦
        let same : reconciled (load_all p log) x ≡ e =
          ground (arith, after-get key, found, there) in
        let ok = load-LoadOk p file key x found in
        subst (LoadOk key) same
          (record { key_eq = ok.key_eq; named = ok.named; target = ok.target })
  ]

  after-linked :
      (name : String) (ids : List String)
      → snapshot_unread after name ≡ some ids
      → All (AddressedTo (load_all p log) name) ids
  unfolding snapshot_unread
  after-linked name ids h = elim (Option-cases (Dict.get after.sessions name)) [
    | inl absent ↦ absurd (ground (arith, absent, h))
    | inr (e, there) ↦
        subst (λ n. All (AddressedTo (load_all p log) n) ids) (after-LoadOk name e there).key_eq
          (subst (All (AddressedTo (load_all p log) e.name)) (some-injective _ _ (rw there at h))
            (reconcile_sound before (load_all p log) name e there))
  ]

  after-IsConsistent :
      (b : Bus)
      → b.registry ≡ after
      → b.log ≡ log
      → log.rest ≡ ""
      → ((key : String) (e : SessionEntry)
          → Dict.get after.sessions key ≡ some e
          → length e.unread_message_ids ≤ peer_bus_max_unread)
      → IsConsistent p b
  after-IsConsistent b same_registry same_log ended small = record {
    valid = record {
      at = λ key e there.
          let found = rw same_registry at there in
          let ok = after-LoadOk key e found in
          record {
            key_eq = ok.key_eq;
            named = ok.named;
            bounded = small key e found;
            target = ok.target;
          };
    };
    linked = record {
      at = λ name ids h.
          subst (λ l. All (AddressedTo (load_all p l) name) ids) (sym same_log)
            (after-linked name ids (rw same_registry at h));
    };
    ended = ap (λ l. l.rest) same_log ∙ ended;
  }

-- What a bus that comes online has of the two files, and of its disk.
record IsOnline (p : Platform) (acquired : Bool) (files : SessionFiles) (b : Bus) : Type 0 where
  locked : acquired ≡ true
  log_eq : b.log ≡ touched_log files.messages_file
  registry_eq : b.registry ≡ after p files.registry_file (touched_log files.messages_file)
  disk_eq : b.disk ≡ some (p.stringify (registry_json b.registry))

abbrev bus_or : Bus → Bootstrap → Bus
bus_or d (online b s reported) = b
bus_or d _ = d

saved-IsOnline :
    (p : Platform) (files : SessionFiles) (b : Bus)
    → persist p saved (
        wired files.registry_file
          (touched_log files.messages_file)
          (after p files.registry_file (touched_log files.messages_file)))
      ≡ b
    → IsOnline p true files b
unfolding persist
saved-IsOnline p files b same =
    subst (IsOnline p true files) same
      (record { locked = refl; log_eq = refl; registry_eq = refl; disk_eq = refl })

bootstrap-IsOnline :
    (p : Platform) (acquired : Bool) (outcome : Persisted) (files : SessionFiles) (b : Bus)
    (s : Summary) (reported : Option Summary)
    → bootstrap_peer_bus p acquired outcome files ≡ online b s reported
    → IsOnline p acquired files b
unfolding bootstrap_peer_bus
bootstrap-IsOnline p true saved files b s reported h = saved-IsOnline p files b (ap (bus_or b) h)
bootstrap-IsOnline p false outcome files b s reported h = absurd cc
bootstrap-IsOnline p true failed_before_rename files b s reported h = absurd cc
bootstrap-IsOnline p true failed_after_rename files b s reported h = absurd cc

-- Whatever registry.json and messages.jsonl hold, if the bus comes online then the lock was acquired,
-- registry.json is the printed registry, and each unread id of a session is a message of the log that
-- is addressed to that session.
pub bootstrap_online :
    (p : Platform) (acquired : Bool) (outcome : Persisted) (files : SessionFiles) (b : Bus)
    (s : Summary) (reported : Option Summary) (name : String) (ids : List String)
    → bootstrap_peer_bus p acquired outcome files ≡ online b s reported
    → snapshot_unread b.registry name ≡ some ids
    → (acquired ≡ true)
      × (b.disk ≡ some (p.stringify (registry_json b.registry)))
      × All (AddressedTo (load_all p b.log) name) ids
bootstrap_online p acquired outcome files b s reported name ids h has_ids =
    let o = bootstrap-IsOnline p acquired outcome files b s reported h in
    (
      o.locked,
      o.disk_eq,
      subst (λ l. All (AddressedTo (load_all p l) name) ids) (sym o.log_eq)
          (after-linked p files.registry_file (touched_log files.messages_file) name ids
            (rw o.registry_eq at has_ids)),
    )

-- From a bus that comes online on files of which the log is empty or ends with a line end, provided that no
-- mailbox it has read is over the cap, in every run with new message ids, and messages that the platform reads back as it prints them, whichever calls fail, each unread id of a session is a message of
-- the log that is addressed to that session.
pub restarted_unread_in_log :
    (p : Platform) (acquired : Bool) (outcome : Persisted) (files : SessionFiles) (start b : Bus)
    (s : Summary) (reported : Option Summary) (name : String) (ids : List String)
    → bootstrap_peer_bus p acquired outcome files ≡ online start s reported
    → ((key : String) (e : SessionEntry)
        → Dict.get start.registry.sessions key ≡ some e
        → length e.unread_message_ids ≤ peer_bus_max_unread)
    → start.log.rest ≡ ""
    → FreshRun p start b
    → snapshot_unread b.registry name ≡ some ids
    → All (AddressedTo (load_all p b.log) name) ids
restarted_unread_in_log p acquired outcome files start b s reported name ids h small ended run
      has_ids =
    let o = bootstrap-IsOnline p acquired outcome files start s reported h in
    let consistent =
      after-IsConsistent p files.registry_file (touched_log files.messages_file) start o.registry_eq
        o.log_eq (ap (λ l. l.rest) (sym o.log_eq) ∙ ended)
        (λ key e there. small key e (rw o.registry_eq there)) in
    (FreshRun-IsConsistent p consistent run).linked.at name ids has_ids

-- ===== src/PeerBus/Bootstrap.antt =====
-- `bootstrapPeerBus` (src/core/peer-bus-bootstrap.ts): a coordinator takes up the session's registry
-- and its message log. Whether the lock is acquired and how `persist` ends are arguments.
pub mod Laws
use agentic_mcp_teaming.Common.{String, Bool, ◌||◌, Option, none, some, [], ltb, if◌then◌else◌}
use agentic_mcp_teaming.Platform.{Platform}
use agentic_mcp_teaming.Message.{MessageLog, empty_log, load_all}
use agentic_mcp_teaming.SessionRegistry.{SessionRegistry, empty_registry}
use agentic_mcp_teaming.SessionRegistry.Disk.{Summary, load, reconcile}
use agentic_mcp_teaming.PeerBus.{
  Bus, Persisted, saved, failed_before_rename, failed_after_rename, persist,
}

-- The session's directory: registry.json and messages.jsonl.
pub record SessionFiles : Type 0 where
  pub registry_file : Option String
  pub messages_file : Option MessageLog

-- `locked_out` and `not_persisted` are what the function throws. `reported` is the summary that is
-- written to the audit log.
pub data Bootstrap : Type 0 where
  locked_out : Bootstrap
  not_persisted : Bootstrap
  online : (bus : Bus) (reconciliation : Summary) (reported : Option Summary) → Bootstrap

-- The log file is created, empty, where it is missing, before it is read.
abbrev pub touched_log : Option MessageLog → MessageLog
touched_log none = empty_log
touched_log (some log) = log

abbrev pub report : Summary → Option Summary
report s = if ltb 0 s.orphaned_count || ltb 0 s.misrouted_count then some s else none

abbrev pub wired : Option String → MessageLog → SessionRegistry → Bus
wired disk log r = record { registry = r; log = log; disk = disk; audit = []; effects = [] }

abbrev pub after_persist : Persisted → Bus → Summary → Bootstrap
after_persist saved b s = online b s (report s)
after_persist failed_before_rename b s = not_persisted
after_persist failed_after_rename b s = not_persisted

unfoldable pub bootstrap_peer_bus :
    Platform → (acquired : Bool) → Persisted → SessionFiles → Bootstrap
unfolding load load_all reconcile persist
bootstrap_peer_bus p acquired outcome files =
    let log = touched_log files.messages_file in
    let (summary, r) = reconcile (load p files.registry_file empty_registry) (load_all p log) in
    if acquired
    then after_persist outcome (persist p outcome (wired files.registry_file log r)) summary
    else locked_out

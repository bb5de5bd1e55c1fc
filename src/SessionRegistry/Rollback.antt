-- ===== src/SessionRegistry/Rollback.antt =====
-- `snapshotEntry` and `restoreEntry` of SessionRegistry (src/core/session-registry.ts).
pub mod Laws
use agentic_mcp_teaming.Common.{String, Option, none, some}
use agentic_mcp_teaming.Dict
use agentic_mcp_teaming.SessionRegistry.{SessionEntry, SessionRegistry}

-- The copy leaves the in-memory `wakeTarget` out.
abbrev pub copy_entry : Option SessionEntry → Option SessionEntry
copy_entry none = none
copy_entry (some e) = some (record e { wake_target = none })

unfoldable pub snapshot_entry : SessionRegistry → String → Option SessionEntry
snapshot_entry r name = copy_entry (Dict.get r.sessions name)

-- Restoring no snapshot deletes the session; otherwise `wakeTarget` is computed again.
unfoldable pub restore_entry : SessionRegistry → String → Option SessionEntry → SessionRegistry
restore_entry r name none = record {
  sessions = Dict.delete r.sessions name;
  wake_states = Dict.delete r.wake_states name;
}
restore_entry r name (some snapshot) = record r {
  sessions = Dict.set r.sessions name (record snapshot { wake_target = snapshot.cmux_surface_id });
}

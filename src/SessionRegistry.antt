-- ===== src/SessionRegistry.antt =====
-- The state of `SessionRegistry` (src/core/session-registry.ts) and its small accessors. Objects in
-- the map are mutated in place by the source; here an update sets the key to the new record.
pub mod Locks
pub mod Register
pub mod Auth
pub mod Wake
pub mod Drain
pub mod Disk
pub mod Rollback
pub mod Invariant
pub mod Unread
use agentic_mcp_teaming.Common.{
  ℕ, ◌+◌, String, Bool, true, false, Option, none, some, List, [], ◌∷◌, ◌++◌, ltb, leb, length,
  if◌then◌else◌,
}
use agentic_mcp_teaming.Dict.{Dict}
use agentic_mcp_teaming.Dict
use agentic_mcp_teaming.Platform.{Platform}

-- `wake_target` is in memory only.
pub record SessionEntry : Type 0 where
  pub name : String
  pub token_hash : String
  pub pane_token_hash : Option String
  pub registered_at : String
  pub last_seen_at : String
  pub unread_message_ids : List String
  pub auto_wake_key : Option String
  pub cmux_surface_id : Option String
  pub cmux_workspace_id : Option String
  pub wake_target : Option String

pub record WakeState : Type 0 where
  pub last_dispatched_at : Option ℕ
  pub wakes_dispatched : ℕ
  pub wakes_suppressed : ℕ
  pub wakes_failed : ℕ

abbrev pub fresh_wake_state : WakeState
fresh_wake_state = record {
  last_dispatched_at = none;
  wakes_dispatched = 0;
  wakes_suppressed = 0;
  wakes_failed = 0;
}

pub record SessionRegistry : Type 0 where
  pub sessions : Dict SessionEntry
  pub wake_states : Dict WakeState

abbrev pub peer_bus_max_unread : ℕ
peer_bus_max_unread = 10000

abbrev pub empty_registry : SessionRegistry
empty_registry = record { sessions = []; wake_states = [] }

abbrev pub get : SessionRegistry → String → Option SessionEntry
get r name = Dict.get r.sessions name

unfoldable pub has : SessionRegistry → String → Bool
unfolding Dict.has
has r name = Dict.has r.sessions name

unfoldable pub list_names : SessionRegistry → List String
list_names r = Dict.keys r.sessions

-- `const entry = this.sessions.get(name); if (entry !== undefined) …`
unfoldable pub mutate : SessionRegistry → String → (SessionEntry → SessionEntry) → SessionRegistry
mutate r name f = elim (Dict.get r.sessions name) [
  | none ↦ r
  | some e ↦ record r { sessions = Dict.set r.sessions name (f e) }
]

unfoldable pub touch : Platform → ℕ → SessionRegistry → String → SessionRegistry
touch p now r name = mutate r name (λ e. record e { last_seen_at = p.to_iso now })

abbrev pub has_room : Option SessionEntry → Bool
has_room none = false
has_room (some e) = ltb (length e.unread_message_ids) peer_bus_max_unread

unfoldable pub can_add_unread : SessionRegistry → String → Bool
can_add_unread r name = has_room (Dict.get r.sessions name)

abbrev pub push_unread : String → SessionEntry → SessionEntry
push_unread id e = record e { unread_message_ids = e.unread_message_ids ++ id ∷ [] }

abbrev pub is_full : SessionEntry → Bool
is_full e = leb peer_bus_max_unread (length e.unread_message_ids)

unfoldable pub add_unread : SessionRegistry → String → String → Bool × SessionRegistry
add_unread r name id = elim (Dict.get r.sessions name) [
  | none ↦ (false, r)
  | some e ↦ if is_full e then (false, r) else (true, mutate r name (push_unread id))
]

abbrev unread_of : Option SessionEntry → Option (List String)
unread_of none = none
unread_of (some e) = some e.unread_message_ids

unfoldable pub snapshot_unread : SessionRegistry → String → Option (List String)
snapshot_unread r name = unread_of (Dict.get r.sessions name)

unfoldable pub restore_unread : SessionRegistry → String → List String → SessionRegistry
restore_unread r name ids = mutate r name (λ e. record e { unread_message_ids = ids })

-- Only the rotating token is wiped.
unfoldable pub clear_token_hashes : SessionRegistry → SessionRegistry
clear_token_hashes r = record r {
  sessions = Dict.map_values (λ e. record e { token_hash = "" }) r.sessions;
}

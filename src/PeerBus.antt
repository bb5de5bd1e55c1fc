-- ===== src/PeerBus.antt =====
-- The tools of the peer bus (src/server/tools/peer-bus.ts): their context, the state that they
-- share, and their replies. A handler takes the state and what the file system and the clock answer,
-- and returns the reply and the new state. Notifications and wakes are started and not awaited, so
-- they are the list of what was started.
pub mod Envelope
pub mod Register
pub mod Send
pub mod Read
pub mod History
pub mod Linked
pub mod Consistent
pub mod Bootstrap
use agentic_mcp_teaming.Common.{ℕ, String, Bool, Option, some, List, [], ◌∷◌, ◌++◌}
use agentic_mcp_teaming.Dict.{Dict}
use agentic_mcp_teaming.Platform.{Platform}
use agentic_mcp_teaming.Message.{MessageLog}
use agentic_mcp_teaming.SessionRegistry.{SessionRegistry}
use agentic_mcp_teaming.SessionRegistry.Disk.{registry_json}
use agentic_mcp_teaming.SessionRegistry.Drain.{DrainResult}

pub data Code : Type 0 where
  invalid_session_name invalid_auto_wake_key invalid_surface_id invalid_workspace_id : Code
  invalid_pane_token_missing invalid_pane_token auto_wake_disabled : Code
  invalid_session_token invalid_recipient_name invalid_workflow_event_body : Code
  payload_too_large recipient_not_registered mailbox_full response_internal_error : Code

-- `thrown` is an exception that leaves the handler.
pub data Reply : Type 0 where
  registered : (name session_token registered_at : String) → Reply
  sent : (message_id : String) → Reply
  received : DrainResult → Reply
  error : Code → Reply
  thrown : Reply

pub data Backend : Type 0 where
  tmux cmux : Backend

pub record AutoWakeConfig : Type 0 where
  pub allowed_commands : Dict String
  pub default_command : Option String
  pub debounce_ms : ℕ

pub record PeerBusContext : Type 0 where
  pub tmux_enabled : Bool
  pub cmux_enabled : Bool
  pub backend : Option Backend
  pub pane_token : Option String
  pub auto_wake_config : Option AutoWakeConfig
  pub has_wake_dispatcher : Bool
  pub inactivity_ttl_ms : Option ℕ
  pub clears_cmux_badge : Bool

-- What is started after a reply is settled.
pub data Effect : Type 0 where
  fire_cmux_notifier fire_tmux_notifier : (recipient from : String) → Effect
  set_cmux_badge clear_cmux_badge : (workspace_id : String) → Effect
  dispatch_wake : (target message_id : String) → Effect

-- The audit entries; tokens are redacted by the source before they are logged.
pub data AuditEntry : Type 0 where
  register_session : (name : String) → AuditEntry
  send_message : (to : String) → Option Code → AuditEntry
  read_messages : (count : ℕ) (has_more : Bool) → AuditEntry
  read_rejected : AuditEntry

-- `log` is messages.jsonl and `disk` the contents of registry.json.
pub record Bus : Type 0 where
  pub registry : SessionRegistry
  pub log : MessageLog
  pub disk : Option String
  pub audit : List AuditEntry
  pub effects : List Effect

-- `persist` writes a temporary file, renames it over the old one and sets its mode. It can fail
-- before the rename, or after it.
pub data Persisted : Type 0 where
  saved failed_before_rename failed_after_rename : Persisted

abbrev pub with_registry : Bus → SessionRegistry → Bus
with_registry b r = record b { registry = r }

abbrev pub write_disk : Persisted → Option String → String → Option String
write_disk failed_before_rename old new = old
write_disk _ old new = some new

unfoldable pub persist : Platform → Persisted → Bus → Bus
persist p outcome b = record b {
  disk = write_disk outcome b.disk (p.stringify (registry_json b.registry));
}

abbrev pub audited : Bus → AuditEntry → Bus
audited b entry = record b { audit = b.audit ++ entry ∷ [] }

abbrev pub started : Bus → List Effect → Bus
started b effects = record b { effects = b.effects ++ effects }

abbrev pub default_ttl_ms : ℕ
default_ttl_ms = 600000

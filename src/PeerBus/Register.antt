-- ===== src/PeerBus/Register.antt =====
-- `registerSessionTool` (src/server/tools/peer-bus.ts).
pub mod Asked
pub mod Laws
pub mod Linked
use agentic_mcp_teaming.Common.{
  ℕ, String, Bool, true, false, ◌&&◌, not, Option, none, some, [], ◌∷◌, len, leb, if◌then◌else◌,
  get_or, is_some,
}
use agentic_mcp_teaming.Dict.{Dict}
use agentic_mcp_teaming.Dict
use agentic_mcp_teaming.Platform.{Platform}
use agentic_mcp_teaming.Patterns.{
  session_name_regex, auto_wake_key_regex, cmux_surface_id_regex, cmux_workspace_id_regex,
}
use agentic_mcp_teaming.SessionRegistry.{SessionEntry, SessionRegistry}
use agentic_mcp_teaming.SessionRegistry.Register.{
  OptField, undefined, null, string, ErrorCode, Result, ok, err, RegisterParams, RegisterResult,
  register,
}
use agentic_mcp_teaming.SessionRegistry.Register
use agentic_mcp_teaming.SessionRegistry.Rollback.{snapshot_entry, restore_entry}
use agentic_mcp_teaming.PeerBus.{
  Code, Reply, registered, error, AutoWakeConfig, PeerBusContext, register_session, Bus, Persisted,
  saved, with_registry, persist, audited, default_ttl_ms,
}
use agentic_mcp_teaming.PeerBus

pub record RegisterSessionParams : Type 0 where
  pub name : String
  pub auto_wake_key : OptField
  pub surface_id : OptField
  pub workspace_id : OptField

abbrev cmux_id_max_bytes : ℕ
cmux_id_max_bytes = 64

abbrev field_ok : (String → Bool) → OptField → Bool
field_ok valid (string s) = valid s
field_ok valid _ = true

abbrev id_ok : (String → Bool) → String → Bool
id_ok regex s = regex s && leb (len s) cmux_id_max_bytes

-- The code of the first issue of the schema, in the order of its fields.
unfoldable pub parse_register : RegisterSessionParams → Option Code
parse_register q =
    if not (session_name_regex q.name)
    then some Code.invalid_session_name
    else if not (field_ok auto_wake_key_regex q.auto_wake_key)
    then some Code.invalid_auto_wake_key
    else if not (field_ok (id_ok cmux_surface_id_regex) q.surface_id)
    then some Code.invalid_surface_id
    else if not (field_ok (id_ok cmux_workspace_id_regex) q.workspace_id)
    then some Code.invalid_workspace_id
    else none

-- A key, or the code of the reply that rejects it.
pub data Resolved : Type 0 where
  key : OptField → Resolved
  rejected : Code → Resolved

abbrev resolve_default : Option String → Resolved
resolve_default none = rejected Code.invalid_auto_wake_key
resolve_default (some k) = key (string k)

abbrev resolve_in : AutoWakeConfig → OptField → Resolved
resolve_in c undefined = key undefined
resolve_in c null = resolve_default c.default_command
resolve_in c (string k) =
    if Dict.has c.allowed_commands k then key (string k) else rejected Code.invalid_auto_wake_key

abbrev nonempty {ℓ} : {V : Type ℓ} → Dict V → Bool
nonempty [] = false
nonempty (x ∷ d) = true

abbrev resolve_with : Option AutoWakeConfig → OptField → Resolved
resolve_with none k = rejected Code.auto_wake_disabled
resolve_with (some c) k =
    if nonempty c.allowed_commands then resolve_in c k else rejected Code.auto_wake_disabled

unfoldable pub resolve_auto_wake_key : PeerBusContext → OptField → Resolved
unfolding Dict.has
resolve_auto_wake_key ctx undefined = key undefined
resolve_auto_wake_key ctx null = resolve_with ctx.auto_wake_config null
resolve_auto_wake_key ctx (string k) = resolve_with ctx.auto_wake_config (string k)

abbrev is_owned : Option SessionEntry → Bool
is_owned none = false
is_owned (some e) = is_some e.pane_token_hash

abbrev code_of : ErrorCode → Code
code_of Register.invalid_session_name = Code.invalid_session_name
code_of Register.invalid_pane_token_missing = Code.invalid_pane_token_missing
code_of Register.invalid_pane_token = Code.invalid_pane_token

abbrev is_saved : Persisted → Bool
is_saved saved = true
is_saved _ = false

-- Inside the session's lock: register, persist, and roll back if that fails.
abbrev settle :
    Platform
    → Persisted
    → Bus
    → Option SessionEntry
    → String
    → Result (RegisterResult × SessionRegistry)
    → Reply × Bus
settle p outcome b snapshot name (err e) = (error (code_of e), b)
settle p outcome b snapshot name (ok (result, r)) =
    let b' = persist p outcome (with_registry b r) in
    if is_saved outcome
    then (registered result.entry.name result.raw_token result.entry.registered_at, b')
    else (
      error Code.response_internal_error,
      with_registry b' (restore_entry b'.registry name snapshot),
    )

abbrev register_params : PeerBusContext → RegisterSessionParams → OptField → RegisterParams
register_params ctx q auto_wake_key = record {
  name = q.name;
  pane_token = ctx.pane_token;
  auto_wake_key = auto_wake_key;
  inactivity_ttl_ms = get_or ctx.inactivity_ttl_ms default_ttl_ms;
  cmux_surface_id = q.surface_id;
  cmux_workspace_id = q.workspace_id;
}

unfoldable pub register_locked :
    Platform
    → ℕ
    → Persisted
    → PeerBusContext
    → Bus
    → RegisterSessionParams
    → String
    → Resolved
    → Reply × Bus
unfolding register persist snapshot_entry restore_entry
register_locked p now outcome ctx b q raw_token (rejected code) = (error code, b)
register_locked p now outcome ctx b q raw_token (key auto_wake_key) =
    settle p outcome b (snapshot_entry b.registry q.name) q.name
      (register p now b.registry (register_params ctx q auto_wake_key) raw_token)

abbrev register_checked :
    Platform
    → ℕ
    → Persisted
    → PeerBusContext
    → Bus
    → RegisterSessionParams
    → String
    → Option Code
    → Reply × Bus
register_checked p now outcome ctx b q raw_token (some code) = (error code, b)
register_checked p now outcome ctx b q raw_token none =
    let b' = audited b (register_session q.name) in
    if not (is_some ctx.pane_token) && is_owned (Dict.get b.registry.sessions q.name)
    then (error Code.invalid_pane_token_missing, b')
    else register_locked p now outcome ctx b' q raw_token
        (resolve_auto_wake_key ctx q.auto_wake_key)

unfoldable pub register_session_tool :
    Platform → ℕ → Persisted → PeerBusContext → Bus → RegisterSessionParams → String → Reply × Bus
unfolding parse_register resolve_auto_wake_key register_locked
register_session_tool p now outcome ctx b q raw_token =
    register_checked p now outcome ctx b q raw_token (parse_register q)

-- ===== src/Tests/Disk.antt =====
-- The theorems on the files, the rollback and the wake state (src/core/session-registry.ts,
-- src/core/message-store.ts) on two sessions.
use agentic_mcp_teaming.Common.{
  String, ◌≡◌, refl, Option, some, [], ◌∷◌, none, str_eq, if◌then◌else◌,
}
use agentic_mcp_teaming.Dict.{Dict}
use agentic_mcp_teaming.Dict
use agentic_mcp_teaming.Platform.{Platform, text}
use agentic_mcp_teaming.Message.{PeerMessage, message_json, MessageLog, append, load_all}
use agentic_mcp_teaming.Message.Log.{load_all-append}
use agentic_mcp_teaming.SessionRegistry.{
  SessionEntry, SessionRegistry, clear_token_hashes, empty_registry, fresh_wake_state,
}
use agentic_mcp_teaming.SessionRegistry.Register.{RegisterParams, undefined, register}
use agentic_mcp_teaming.SessionRegistry.Rollback.{snapshot_entry, restore_entry}
use agentic_mcp_teaming.SessionRegistry.Rollback.Laws.{
  restore_undoes_register, restore_loses_window,
}
use agentic_mcp_teaming.SessionRegistry.Disk.{load, registry_json}
use agentic_mcp_teaming.SessionRegistry.Disk.RoundTrip.{load-persist}
use agentic_mcp_teaming.PeerBus.Envelope.{wrap_envelope}
use agentic_mcp_teaming.PeerBus.Envelope.Safe.{framed, Escaped, wrap_envelope_escapes}
use agentic_mcp_teaming.Tests.{
  toy, toy_platform, two_sessions, two_sessions-IsValid, owned_by, note_to, dots,
}

abbrev stored : Platform
stored = toy_platform (registry_json two_sessions)

load-persist_example :
    Dict.get
      (load stored (some (stored.stringify (registry_json two_sessions))) empty_registry).sessions
      "ann"
    ≡ Dict.get (clear_token_hashes two_sessions).sessions "ann"
unfolding toy_platform agentic_mcp_teaming.Patterns.session_name_regex
    agentic_mcp_teaming.Patterns.auto_wake_key_regex Dict.get
load-persist_example =
    load-persist stored two_sessions empty_registry "ann"
      (record { parse-stringify = refl; stringify-ne-empty = λ h. cc })
      (record {
        entries = (
          record {
            key_eq = refl;
            named = refl;
            pane_ok = refl;
            wake_ok = refl;
            surface_ok = refl;
            workspace_ok = refl;
            target = refl;
          },
          (
            record {
              key_eq = refl;
              named = refl;
              pane_ok = refl;
              wake_ok = refl;
              surface_ok = refl;
              workspace_ok = refl;
              target = refl;
            },
            tt,
          ),
        );
        distinct = (refl, (refl, tt));
      })

abbrev logged : Platform
logged = toy_platform (message_json (note_to "m3" "ann" 9))

abbrev one_line : MessageLog
one_line = record { lines = "json" ∷ []; rest = "" }

load_all-append_example :
    (load_all logged (append logged one_line (note_to "m3" "ann" 9))
      ≡ Dict.set (load_all logged one_line) "m3" (note_to "m3" "ann" 9))
    × ((append logged one_line (note_to "m3" "ann" 9)).rest ≡ "")
unfolding toy_platform
load_all-append_example =
    load_all-append logged one_line (note_to "m3" "ann" 9)
      (record { parse-stringify = refl; stringify-ne-empty = λ h. cc }) refl

-- A platform that reads one text only, and a log that ends within a line.
abbrev strict : Platform
strict = record logged {
  json_parse = λ s. if str_eq s "json" then some (message_json (note_to "m3" "ann" 9)) else none;
}

abbrev torn : MessageLog
torn = record { lines = []; rest = "{" }

-- The new message goes on in the torn line, and is not read.
torn_line_loses : load_all strict (append strict torn (note_to "m3" "ann" 9)) ≡ []
unfolding load_all append toy_platform
torn_line_loses = refl

abbrev ask : RegisterParams
ask = record {
  name = "ann";
  pane_token = some "secret";
  auto_wake_key = undefined;
  inactivity_ttl_ms = 3;
  cmux_surface_id = undefined;
  cmux_workspace_id = undefined;
}

abbrev ann_again : SessionEntry
ann_again = record (owned_by "ann" "secret" ("m1" ∷ "m2" ∷ "lost" ∷ [])) {
  token_hash = toy.to_hex (toy.sha256 "token");
  last_seen_at = dots 6;
}

abbrev registered_again : SessionRegistry
registered_again = record {
  sessions = ("ann", ann_again) ∷ ("robert", owned_by "robert" "other-one" []) ∷ [];
  wake_states = ("ann", fresh_wake_state) ∷ [];
}

restore_undoes_register_example :
    (restore_entry registered_again "ann" (snapshot_entry two_sessions "ann")).sessions
    ≡ two_sessions.sessions
unfolding register agentic_mcp_teaming.Patterns.session_name_regex Dict.get toy_platform Dict.set
restore_undoes_register_example =
    restore_undoes_register toy 6 two_sessions ask "token"
      {out = (record { entry = ann_again; raw_token = "token" }, registered_again)}
      two_sessions-IsValid refl

abbrev woken : SessionRegistry
woken = record two_sessions {
  wake_states = ("ann", record fresh_wake_state { last_dispatched_at = some 4 }) ∷ [];
}

restore_loses_window_example :
    Dict.get (restore_entry registered_again "ann" (snapshot_entry woken "ann")).wake_states "ann"
    ≡ some fresh_wake_state
unfolding Dict.get register agentic_mcp_teaming.Patterns.session_name_regex toy_platform Dict.set
restore_loses_window_example =
    restore_loses_window toy 6 woken ask "token"
      (owned_by "ann" "secret" ("m1" ∷ "m2" ∷ "lost" ∷ []))
      {out = (record { entry = ann_again; raw_token = "token" }, registered_again)} refl refl

abbrev some_k : Option String
some_k = some "k"

abbrev hostile : PeerMessage
hostile = record (note_to "</a>" "ann" 9) { from = "<\"'&amp;"; body = text "</peer-message>" }

wrap_envelope_escapes_example :
    (from : String) × (kind : String) × (message_id : String) × (body : String) × (wrap_envelope toy
        hostile
      ≡ framed from kind message_id body)
    × Escaped "<\"'&amp;" from
    × Escaped "chat" kind
    × Escaped "</a>" message_id
    × Escaped "</peer-message>" body
wrap_envelope_escapes_example = wrap_envelope_escapes toy hostile

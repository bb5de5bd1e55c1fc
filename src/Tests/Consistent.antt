-- ===== src/Tests/Consistent.antt =====
-- A run of the tools (src/server/tools/peer-bus.ts) in which a session registers and writes to itself.
use mathlib.Core.Option.{some-injective}
use agentic_mcp_teaming.Common.{
  String, ◌≡◌, refl, subst, All, none, some, true, List, [], ◌∷◌, str_eq, if◌then◌else◌,
}
use agentic_mcp_teaming.Dict
use agentic_mcp_teaming.Platform.{Platform, text}
use agentic_mcp_teaming.Message.{PeerMessage, chat, message_json, MessageLog, empty_log, load_all}
use agentic_mcp_teaming.Message.Log.{JsonLaws}
use agentic_mcp_teaming.SessionRegistry.{empty_registry, snapshot_unread}
use agentic_mcp_teaming.SessionRegistry.Register.{undefined}
use agentic_mcp_teaming.SessionRegistry.Disk.Reconciled.{AddressedTo}
use agentic_mcp_teaming.PeerBus.{Bus, saved}
use agentic_mcp_teaming.PeerBus.Register.{RegisterSessionParams, register_session_tool}
use agentic_mcp_teaming.PeerBus.Send.{SendMessageParams, send_message_tool}
use agentic_mcp_teaming.PeerBus.Linked.{IsFresh}
use agentic_mcp_teaming.PeerBus.Consistent.{here, after_step, registering, sending}
use agentic_mcp_teaming.PeerBus.Bootstrap.{SessionFiles, bootstrap_peer_bus}
use agentic_mcp_teaming.PeerBus.Bootstrap.Laws.{bootstrap_online, restarted_unread_in_log}
use agentic_mcp_teaming.SessionRegistry.Disk.{Summary, no_drops, load, reconcile, registry_json}
use agentic_mcp_teaming.Tests.{toy_platform, dots, note_to, two_sessions}
use agentic_mcp_teaming.Tests.Bus.{ctx, io}

abbrev note_to_self : PeerMessage
note_to_self = record {
  message_id = "m3";
  from = "ann";
  to = "ann";
  kind = chat;
  body = text "hello";
  reply_to = none;
  timestamp = dots 6;
}

abbrev p : Platform
p = toy_platform (message_json note_to_self)

abbrev empty_bus : Bus
empty_bus = record {
  registry = empty_registry;
  log = empty_log;
  disk = some "json";
  audit = [];
  effects = [];
}

abbrev as_ann : RegisterSessionParams
as_ann = record {
  name = "ann";
  auto_wake_key = undefined;
  surface_id = undefined;
  workspace_id = undefined;
}

abbrev joined : Bus
joined = (register_session_tool p 6 saved ctx empty_bus as_ann "token").1

abbrev request : SendMessageParams
request = record {
  session_token = "token";
  to = "ann";
  kind = "chat";
  body = some (text "hello");
  reply_to = none;
}

abbrev noted : Bus
noted = (send_message_tool p io ctx joined request).1

readable : (m : PeerMessage) → some note_to_self ≡ some m → JsonLaws p (message_json m)
unfolding toy_platform
readable m h =
    subst (λ x. JsonLaws p (message_json x)) (some-injective _ _ h)
      (record { parse-stringify = refl; stringify-ne-empty = λ e. cc })

fresh : IsFresh p io joined request
unfolding toy_platform register_session_tool load_all Dict.get
    agentic_mcp_teaming.Patterns.session_name_regex agentic_mcp_teaming.PeerBus.Send.parse_send
    agentic_mcp_teaming.SessionRegistry.Auth.authenticate Dict.set
    agentic_mcp_teaming.PeerBus.Send.normal_body
fresh = record { unused = refl; readable = readable }

abbrev one_id : List String
one_id = "m3" ∷ []

abbrev no_files : SessionFiles
no_files = record { registry_file = none; messages_file = none }

restarted_unread_in_log_example : All (AddressedTo (load_all p noted.log) "ann") one_id
unfolding snapshot_unread Dict.get send_message_tool register_session_tool
    agentic_mcp_teaming.Patterns.session_name_regex Dict.set toy_platform
    agentic_mcp_teaming.SessionRegistry.mutate bootstrap_peer_bus
restarted_unread_in_log_example =
    restarted_unread_in_log p true saved no_files empty_bus noted no_drops none "ann" one_id refl
      (λ key e h. absurd cc) refl
      (after_step (after_step here (registering 6 saved ctx as_ann "token"))
        (sending io ctx request fresh))
      refl

-- The registry is two sessions, and each line of the log is a message for `ann` with the line's id.
abbrev q : Platform
q = record p {
  json_parse = λ s. some (
      if str_eq s "registry" then registry_json two_sessions else message_json (note_to s "ann" 5));
}

-- The last line has no line end.
abbrev torn : MessageLog
torn = record { lines = "m1" ∷ []; rest = "m2" }

abbrev two_files : SessionFiles
two_files = record { registry_file = some "registry"; messages_file = some torn }

abbrev restarted : Bus
restarted = record empty_bus {
  registry = (reconcile (load q (some "registry") empty_registry) (load_all q torn)).1;
  log = torn;
  disk = some "json";
}

abbrev one_lost : Summary
one_lost = record { orphaned_count = 1; misrouted_count = 0; first_few_ids = "lost" ∷ [] }

bootstrap_online_example :
    (true ≡ true)
    × (restarted.disk ≡ some (q.stringify (registry_json restarted.registry)))
    × All (AddressedTo (load_all q restarted.log) "ann") ("m1" ∷ "m2" ∷ [])
unfolding snapshot_unread Dict.get Dict.set toy_platform bootstrap_peer_bus load reconcile load_all
    agentic_mcp_teaming.Patterns.session_name_regex registry_json message_json
bootstrap_online_example =
    bootstrap_online q true saved two_files restarted one_lost (some one_lost) "ann"
      ("m1" ∷ "m2" ∷ []) refl refl

-- ===== src/Tests/Bus.antt =====
-- The theorems on the tools (src/server/tools/peer-bus.ts) on a bus with two sessions.
use agentic_mcp_teaming.Common.{
  ◌≤◌, String, ◌≡◌, refl, true, false, none, some, List, [], ◌∷◌, length,
}
use agentic_mcp_teaming.Dict
use agentic_mcp_teaming.Platform.{text, Platform}
use agentic_mcp_teaming.Message.{message_json}
use agentic_mcp_teaming.SessionRegistry.{
  SessionEntry, SessionRegistry, peer_bus_max_unread, empty_registry, snapshot_unread,
}
use agentic_mcp_teaming.SessionRegistry.Register.{
  RegisterParams, RegisterResult, undefined, ok, register,
}
use agentic_mcp_teaming.SessionRegistry.Auth.{authenticate}
use agentic_mcp_teaming.SessionRegistry.Drain.{DrainResult}
use agentic_mcp_teaming.SessionRegistry.Unread.{Quiet}
use agentic_mcp_teaming.SessionRegistry.Disk.{registry_json}
use agentic_mcp_teaming.SessionRegistry.Invariant.{IsValid}
use agentic_mcp_teaming.PeerBus.{
  Code, PeerBusContext, Bus, saved, failed_before_rename, failed_after_rename,
}
use agentic_mcp_teaming.PeerBus.Register.{RegisterSessionParams, register_session_tool}
use agentic_mcp_teaming.PeerBus.Register.Asked.{AskedFor}
use agentic_mcp_teaming.PeerBus.Register.Laws.{register_tool_rolls_back, register_tool_registers}
use agentic_mcp_teaming.PeerBus.Send.{SendMessageParams, written, Io, send_message_tool}
use agentic_mcp_teaming.PeerBus.Send.Laws.{send_tool_undoes}
use agentic_mcp_teaming.PeerBus.Read.{ReadIo, read_messages_tool}
use agentic_mcp_teaming.PeerBus.Read.Laws.{drained, read_tool_drains, read_tool_undoes}
use agentic_mcp_teaming.PeerBus.History.{
  here, after_step, registering, sending, reading, Reachable-IsValid, Reachable-mailbox_bounded,
}
use agentic_mcp_teaming.Tests.{
  toy_platform, two_sessions, two_sessions-IsValid, owned_by, dots, note_to,
}

abbrev pub ctx : PeerBusContext
ctx = record {
  tmux_enabled = true;
  cmux_enabled = false;
  backend = none;
  pane_token = some "secret";
  auto_wake_config = none;
  has_wake_dispatcher = true;
  inactivity_ttl_ms = some 3;
  clears_cmux_badge = false;
}

-- The log has one line, which the platform reads as a note to `ann`.
abbrev p : Platform
p = toy_platform (message_json (note_to "m1" "ann" 4))

abbrev bus : Bus
bus = record {
  registry = two_sessions;
  log = record { lines = "line" ∷ []; rest = "" };
  disk = none;
  audit = [];
  effects = [];
}

-- The session `robert` sends a note to `ann`.
abbrev to_ann : SendMessageParams
to_ann = record {
  session_token = "robert";
  to = "ann";
  kind = "chat";
  body = some (text "hello");
  reply_to = none;
}

abbrev pub io : Io
io = record {
  auth_time = 6;
  envelope_time = 6;
  lock_time = 6;
  message_id = "m3";
  appended = written;
  persisted = saved;
}

abbrev broken_io : Io
broken_io = record io { persisted = failed_after_rename }

send_tool_undoes_example :
    snapshot_unread (send_message_tool p broken_io ctx bus to_ann).1.registry "ann"
    ≡ snapshot_unread two_sessions "ann"
unfolding send_message_tool toy_platform agentic_mcp_teaming.Patterns.session_name_regex Dict.get
    agentic_mcp_teaming.SessionRegistry.mutate Dict.set
send_tool_undoes_example = send_tool_undoes p broken_io ctx bus to_ann refl "ann"

abbrev read_io : ReadIo
read_io = record { auth_time = 6; lock_time = 6; load_works = true; persisted = saved }

abbrev broken_read : ReadIo
broken_read = record read_io { persisted = failed_before_rename }

abbrev got : DrainResult
got = (drained p read_io ctx bus "abc" (owned_by "ann" "secret" ("m1" ∷ "m2" ∷ "lost" ∷ []))).0

read_tool_drains_example :
    (caller : SessionEntry) × (authenticate p two_sessions "abc" ≡ some caller)
    × (got ≡ (drained p read_io ctx bus "abc" caller).0)
    × Quiet
        (drained p read_io ctx bus "abc" caller).1
        (read_messages_tool p read_io ctx bus "abc").1.registry
    × ((read_messages_tool p read_io ctx bus "abc").1.disk
        ≡ some
            (p.stringify (registry_json (read_messages_tool p read_io ctx bus "abc").1.registry)))
unfolding read_messages_tool toy_platform
read_tool_drains_example = read_tool_drains p read_io ctx bus "abc" got refl

read_tool_undoes_example :
    snapshot_unread (read_messages_tool p broken_read ctx bus "abc").1.registry "ann"
    ≡ snapshot_unread two_sessions "ann"
unfolding read_messages_tool toy_platform
read_tool_undoes_example =
    read_tool_undoes p broken_read ctx bus "abc" Code.response_internal_error refl "ann"

abbrev as_ann : RegisterSessionParams
as_ann = record {
  name = "ann";
  auto_wake_key = undefined;
  surface_id = undefined;
  workspace_id = undefined;
}

register_tool_rolls_back_example :
    (register_session_tool p 6 failed_after_rename ctx bus as_ann "token").1.registry.sessions
    ≡ two_sessions.sessions
unfolding register_session_tool agentic_mcp_teaming.Patterns.session_name_regex Dict.get
    toy_platform
register_tool_rolls_back_example =
    register_tool_rolls_back p 6 failed_after_rename ctx bus as_ann "token"
      Code.response_internal_error two_sessions-IsValid refl

register_tool_registers_example :
    let tool = register_session_tool p 6 saved ctx bus as_ann "token" in
    (r : RegisterParams) × AskedFor ctx as_ann r
    × (done : RegisterResult × SessionRegistry) × (register p 6 two_sessions r "token" ≡ ok done)
    × (tool.1.registry ≡ done.1)
    × (tool.1.disk ≡ some (p.stringify (registry_json tool.1.registry)))
    × ("token" ≡ done.0.raw_token)
    × ("ann" ≡ done.0.entry.name)
unfolding register_session_tool agentic_mcp_teaming.Patterns.session_name_regex Dict.get
    toy_platform
register_tool_registers_example =
    register_tool_registers p 6 saved ctx bus as_ann "token" "ann" "token" (dots 5) refl

abbrev fresh_bus : Bus
fresh_bus = record bus { registry = empty_registry }

abbrev joined : Bus
joined = (register_session_tool p 6 saved ctx fresh_bus as_ann "token").1

abbrev noted : Bus
noted = (send_message_tool p io ctx joined (record to_ann { session_token = "token" })).1

Reachable-IsValid_example :
    IsValid
      (read_messages_tool p broken_read ctx
        (send_message_tool p io ctx bus to_ann).1
        "abc").1.registry
Reachable-IsValid_example =
    Reachable-IsValid p {start = bus} two_sessions-IsValid
      (after_step (after_step here (sending io ctx to_ann)) (reading broken_read ctx "abc"))

abbrev one_id : List String
one_id = "m3" ∷ []

Reachable-mailbox_bounded_example : length one_id ≤ peer_bus_max_unread
unfolding snapshot_unread Dict.get send_message_tool register_session_tool
    agentic_mcp_teaming.Patterns.session_name_regex Dict.set toy_platform
    agentic_mcp_teaming.SessionRegistry.mutate
Reachable-mailbox_bounded_example =
    Reachable-mailbox_bounded p fresh_bus noted "ann" one_id refl
      (after_step (after_step here (registering 6 saved ctx as_ann "token"))
        (sending io ctx (record to_ann { session_token = "token" })))
      refl

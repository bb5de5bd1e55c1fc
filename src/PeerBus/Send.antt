-- ===== src/PeerBus/Send.antt =====
-- `sendMessageTool` (src/server/tools/peer-bus.ts). The section under the two sessions' locks is
-- `deliver`; `Io` holds what the clock and the file system answer during the call.
pub mod Asked
pub mod Delivering
pub mod Laws
pub mod Valid
pub mod Logged
use agentic_mcp_teaming.Common.{
  ℕ, String, Bool, true, false, ◌&&◌, not, Option, none, some, List, [], ◌∷◌, ◌++◌, ◌==◌, ltb,
  length, str_eq, if◌then◌else◌,
}
use agentic_mcp_teaming.Dict
use agentic_mcp_teaming.Platform.{Platform, Json, text, object}
use agentic_mcp_teaming.Patterns.{session_name_regex, uuid_v4_regex}
use agentic_mcp_teaming.Message.{
  PeerMessageKind, workflow_event, PeerMessage, kind_of, get_member, as_text, append,
  compute_body_byte_length, peer_bus_max_body_bytes,
}
use agentic_mcp_teaming.SessionRegistry
use agentic_mcp_teaming.SessionRegistry.{
  SessionEntry, touch, can_add_unread, add_unread, snapshot_unread, restore_unread,
}
use agentic_mcp_teaming.SessionRegistry.Auth.{authenticate}
use agentic_mcp_teaming.PeerBus.{
  Code, Reply, sent, error, thrown, Backend, cmux, PeerBusContext, Effect, fire_cmux_notifier,
  fire_tmux_notifier, set_cmux_badge, dispatch_wake, send_message, Bus, Persisted, saved,
  with_registry, persist, audited, started,
}

-- `body` is absent where the caller sent none; the schema lets that pass.
pub record SendMessageParams : Type 0 where
  pub session_token : String
  pub to : String
  pub kind : String
  pub body : Option Json
  pub reply_to : Option String

-- `append` throws before it has written the line, or when it cannot sync it.
pub data Appending : Type 0 where
  written not_written not_synced : Appending

pub record Io : Type 0 where
  pub auth_time : ℕ
  pub envelope_time : ℕ
  pub lock_time : ℕ
  pub message_id : String
  pub appended : Appending
  pub persisted : Persisted

abbrev reply_to_ok : Option String → Bool
reply_to_ok none = true
reply_to_ok (some s) = uuid_v4_regex s

abbrev parse_kind : Bool → Option PeerMessageKind → Option PeerMessageKind
parse_kind true k = k
parse_kind false k = none

-- `none` is an issue of the schema at `kind` or `replyTo`; both have the same code.
unfoldable pub parse_send : SendMessageParams → Option PeerMessageKind
parse_send q = parse_kind (reply_to_ok q.reply_to) (kind_of q.kind)

abbrev or_json : Option Json → Json → Option Json
or_json none j = some j
or_json (some parsed) j = some parsed

-- A workflow event that came as a text is parsed, if it is JSON.
unfoldable pub normal_body : Platform → PeerMessageKind → Option Json → Option Json
normal_body p workflow_event (some (text s)) = or_json (p.json_parse s) (text s)
normal_body p kind body = body

abbrev has_event : Option String → Bool
has_event none = false
has_event (some event) = not (str_eq event "")

abbrev is_event_body : Option Json → Bool
is_event_body (some (object ms)) = has_event (as_text (get_member ms "event"))
is_event_body _ = false

unfoldable pub body_ok : PeerMessageKind → Option Json → Bool
unfolding get_member
body_ok workflow_event body = is_event_body body
body_ok kind body = true

abbrev unread_count : Option SessionEntry → ℕ
unread_count none = 0
unread_count (some e) = length e.unread_message_ids

-- The outcome of the section under the locks: an error code, or the recipient's new unread count.
pub data Delivery : Type 0 where
  refused : Code → Delivery
  delivered : ℕ → Delivery

abbrev restore : Bus → String → Option (List String) → Bus
restore b to none = b
restore b to (some ids) = with_registry b (restore_unread b.registry to ids)

abbrev after_persist : Persisted → Bus → String → Option (List String) → ℕ → Delivery × Bus
after_persist saved b to snapshot count = (delivered count, b)
after_persist _ b to snapshot count = (refused Code.response_internal_error, restore b to snapshot)

unfoldable pub deliver_appended :
    Platform → Io → Bus → SessionEntry → PeerMessage → Option (List String) → Delivery × Bus
unfolding add_unread touch persist restore_unread
deliver_appended p io b from m snapshot =
    let r = (add_unread b.registry m.to m.message_id).1 in
    let r' = touch p io.lock_time (touch p io.lock_time r from.name) m.to in
    let count = unread_count (SessionRegistry.get r' m.to) in
    after_persist io.persisted (persist p io.persisted (with_registry b r')) m.to snapshot count

abbrev pub on_append : Platform → Io → Bus → SessionEntry → PeerMessage → Appending → Delivery × Bus
on_append p io b from m not_written = (refused Code.response_internal_error, b)
on_append p io b from m not_synced =
    (refused Code.response_internal_error, record b { log = append p b.log m })
on_append p io b from m written =
    deliver_appended p io (record b { log = append p b.log m }) from m
      (snapshot_unread b.registry m.to)

unfoldable pub deliver : Platform → Io → Bus → SessionEntry → PeerMessage → Delivery × Bus
unfolding can_add_unread snapshot_unread append deliver_appended
deliver p io b from m =
    if not (can_add_unread b.registry m.to)
    then (refused Code.mailbox_full, b)
    else on_append p io b from m io.appended

abbrev badge : Option SessionEntry → ℕ → List Effect
badge none count = []
badge (some e) count = elim e.cmux_workspace_id [
  | none ↦ []
  | some workspace_id ↦ if count == 1 then set_cmux_badge workspace_id ∷ [] else []
]

abbrev is_cmux : Option Backend → Bool
is_cmux (some cmux) = true
is_cmux _ = false

-- The notifier of the active backend, then the wake.
unfoldable pub notifications : PeerBusContext → Bus → PeerMessage → ℕ → List Effect
notifications ctx b m count =
    let wakes = if ctx.has_wake_dispatcher then dispatch_wake m.to m.message_id ∷ [] else [] in
    if is_cmux ctx.backend && ctx.cmux_enabled
    then fire_cmux_notifier m.to m.from
      ∷ (badge (SessionRegistry.get b.registry m.to) count ++ wakes)
    else if ctx.tmux_enabled
    then fire_tmux_notifier m.to m.from ∷ wakes
    else wakes

abbrev conclude : PeerBusContext → PeerMessage → Delivery × Bus → Reply × Bus
conclude ctx m (refused code, b) = (error code, audited b (send_message m.to (some code)))
conclude ctx m (delivered count, b) =
    let b' = audited b (send_message m.to none) in
    (sent m.message_id, started b' (notifications ctx b' m count))

abbrev pub envelope :
    Platform → Io → SendMessageParams → PeerMessageKind → SessionEntry → Json → PeerMessage
envelope p io q kind from body = record {
  message_id = io.message_id;
  from = from.name;
  to = q.to;
  kind = kind;
  body = body;
  reply_to = q.reply_to;
  timestamp = p.to_iso io.envelope_time;
}

-- The size check throws on a body that is `undefined`.
abbrev send_body :
    Platform
    → Io
    → PeerBusContext
    → Bus
    → SendMessageParams
    → PeerMessageKind
    → SessionEntry
    → Option Json
    → Reply × Bus
send_body p io ctx b q kind from none = (thrown, b)
send_body p io ctx b q kind from (some body) =
    if ltb peer_bus_max_body_bytes (compute_body_byte_length p body)
    then (error Code.payload_too_large, audited b (send_message q.to (some Code.payload_too_large)))
    else if not (SessionRegistry.has b.registry q.to)
    then (
      error Code.recipient_not_registered,
      audited b (send_message q.to (some Code.recipient_not_registered)),
    )
    else let m = envelope p io q kind from body in conclude ctx m (deliver p io b from m)

abbrev send_authenticated :
    Platform
    → Io
    → PeerBusContext
    → Bus
    → SendMessageParams
    → PeerMessageKind
    → Option Json
    → Option SessionEntry
    → Reply × Bus
send_authenticated p io ctx b q kind body none = (
  error Code.invalid_session_token,
  audited b (send_message q.to (some Code.invalid_session_token)),
)
send_authenticated p io ctx b q kind body (some from) =
    let b' = with_registry b (touch p io.auth_time b.registry from.name) in
    if not (session_name_regex q.to)
    then (
      error Code.invalid_recipient_name,
      audited b' (send_message q.to (some Code.invalid_recipient_name)),
    )
    else if not (body_ok kind body)
    then (error Code.invalid_workflow_event_body, b')
    else send_body p io ctx b' q kind from body

abbrev send_parsed :
    Platform → Io → PeerBusContext → Bus → SendMessageParams → Option PeerMessageKind → Reply × Bus
send_parsed p io ctx b q none = (error Code.invalid_workflow_event_body, b)
send_parsed p io ctx b q (some kind) =
    send_authenticated p io ctx b q kind (normal_body p kind q.body)
      (authenticate p b.registry q.session_token)

unfoldable pub send_message_tool :
    Platform → Io → PeerBusContext → Bus → SendMessageParams → Reply × Bus
unfolding parse_send normal_body authenticate touch body_ok compute_body_byte_length
    SessionRegistry.has deliver notifications
send_message_tool p io ctx b q = send_parsed p io ctx b q (parse_send q)

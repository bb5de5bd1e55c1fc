-- ===== src/Message.antt =====
-- Envelopes and the message log (src/core/message-store.ts). The log file is the list of its lines,
-- the oldest first, and what stands after the last line end. `load_all` reads back what `append` writes; a line that is an object with a
-- string `messageId` but lacks another field of an envelope counts as corrupt here.
pub mod Log
use Prim.Native.String.{◌++◌ as str_append}
use agentic_mcp_teaming.Common.{
  ℕ, String, Option, none, some, List, [], ◌∷◌, ◌++◌, str_eq, len, if◌then◌else◌,
}
use agentic_mcp_teaming.Dict.{Dict}
use agentic_mcp_teaming.Dict
use agentic_mcp_teaming.Platform.{Platform, Json, text, object, Members, end, member}

abbrev pub peer_bus_max_body_bytes : ℕ
peer_bus_max_body_bytes = 65536

abbrev pub peer_bus_max_response_bytes : ℕ
peer_bus_max_response_bytes = 1048576

pub data PeerMessageKind : Type 0 where
  workflow_event chat request response : PeerMessageKind

abbrev pub kind_text : PeerMessageKind → String
kind_text workflow_event = "workflow-event"
kind_text chat = "chat"
kind_text request = "request"
kind_text response = "response"

abbrev pub kind_of : String → Option PeerMessageKind
kind_of s =
    if str_eq s "workflow-event"
    then some workflow_event
    else if str_eq s "chat"
    then some chat
    else if str_eq s "request"
    then some request
    else if str_eq s "response"
    then some response
    else none

pub record PeerMessage : Type 0 where
  pub message_id : String
  pub from : String
  pub to : String
  pub kind : PeerMessageKind
  pub body : Json
  pub reply_to : Option String
  pub timestamp : String

-- A text body stands for itself, any other value is printed as JSON.
abbrev pub serialised : Platform → Json → String
serialised p (text s) = s
serialised p j = p.stringify j

unfoldable pub compute_body_byte_length : Platform → Json → ℕ
compute_body_byte_length p body = len (serialised p body)

-- The members of an object in order; the last one of a name wins.
unfoldable pub get_member : Members → String → Option Json
get_member end k = none
get_member (member j v ms) k =
    let later = get_member ms k in
    elim later [ some w ↦ some w | none ↦ if str_eq j k then some v else none ]

abbrev reply_member : Option String → Members → Members
reply_member none ms = ms
reply_member (some r) ms = member "replyTo" (text r) ms

unfoldable pub message_json : PeerMessage → Json
message_json m = object (
    member "messageId" (text m.message_id) (
      member "from" (text m.from) (
        member "to" (text m.to) (
          member "kind" (text (kind_text m.kind)) (
            member "body" m.body
              (reply_member m.reply_to (member "timestamp" (text m.timestamp) end)))))))

abbrev pub as_text : Option Json → Option String
as_text (some (text s)) = some s
as_text _ = none

infixl 5 ◌>>=◌
abbrev ◌>>=◌ {ℓ κ} : {A : Type ℓ} {B : Type κ} → Option A → (A → Option B) → Option B
none >>= k = none
some a >>= k = k a

unfoldable pub message_of : Json → Option PeerMessage
unfolding get_member
message_of (object ms) = do
  message_id ← as_text (get_member ms "messageId")
  from ← as_text (get_member ms "from")
  to ← as_text (get_member ms "to")
  kind_name ← as_text (get_member ms "kind")
  kind ← kind_of kind_name
  body ← get_member ms "body"
  timestamp ← as_text (get_member ms "timestamp")
  some (record {
    message_id = message_id;
    from = from;
    to = to;
    kind = kind;
    body = body;
    reply_to = as_text (get_member ms "replyTo");
    timestamp = timestamp;
  })
message_of _ = none

-- messages.jsonl: `rest` is the last line where it has no line end, and empty otherwise.
pub record MessageLog : Type 0 where
  pub lines : List String
  pub rest : String

abbrev pub empty_log : MessageLog
empty_log = record { lines = []; rest = "" }

-- The new line goes on where the file ends.
unfoldable pub append : Platform → MessageLog → PeerMessage → MessageLog
unfolding message_json
append p log m = record {
  lines = log.lines ++ str_append log.rest (p.stringify (message_json m)) ∷ [];
  rest = "";
}

-- One line of the loop of `loadAll`: an empty or corrupt one is skipped.
abbrev parse_line : Platform → String → Option PeerMessage
parse_line p line = if str_eq line "" then none else do j ← p.json_parse line; message_of j

abbrev add_message : Dict PeerMessage → Option PeerMessage → Dict PeerMessage
add_message found none = found
add_message found (some m) = Dict.set found m.message_id m

load_from : Platform → Dict PeerMessage → List String → Dict PeerMessage
load_from p found [] = found
load_from p found (line ∷ lines) = load_from p (add_message found (parse_line p line)) lines

-- A last line without an end is read too.
unfoldable pub load_all : Platform → MessageLog → Dict PeerMessage
unfolding load_from message_of
load_all p log = load_from p [] (log.lines ++ log.rest ∷ [])

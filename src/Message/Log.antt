-- ===== src/Message/Log.antt =====
-- What is appended to the log is read back by `load_all`.
use Prim.Native.String.{◌++◌ as str_append}
use text.Mathlib.TextLemmas.{nil-append}
use agentic_mcp_teaming.Common.{
  String, ◌≡◌, refl, sym, ap, ◌∙◌, ◌≢◌, Option, none, some, List, [], ◌∷◌, ◌++◌, str_eq-eq-false,
}
use agentic_mcp_teaming.Dict.{Dict}
use agentic_mcp_teaming.Dict
use agentic_mcp_teaming.Platform.{Platform, Json}
use agentic_mcp_teaming.Message.{
  PeerMessage, PeerMessageKind, workflow_event, chat, request, response, message_json, message_of,
  MessageLog, append, load_from, load_all, add_message, parse_line,
}

-- Printing a JSON value and reading it gives it back, and what is printed is not empty.
pub record JsonLaws (p : Platform) (j : Json) : Type 0 where
  pub parse-stringify : p.json_parse (p.stringify j) ≡ some j
  pub stringify-ne-empty : p.stringify j ≢ ""

message_of-fields :
    (message_id from to timestamp : String) (body : Json)
    → (kind : PeerMessageKind) (reply_to : Option String)
    → let m : PeerMessage = record {
      message_id = message_id;
      from = from;
      to = to;
      kind = kind;
      body = body;
      reply_to = reply_to;
      timestamp = timestamp;
    } in
      message_of (message_json m) ≡ some m
unfolding message_of message_json
message_of-fields message_id from to timestamp body workflow_event none = refl
message_of-fields message_id from to timestamp body workflow_event (some r) = refl
message_of-fields message_id from to timestamp body chat none = refl
message_of-fields message_id from to timestamp body chat (some r) = refl
message_of-fields message_id from to timestamp body request none = refl
message_of-fields message_id from to timestamp body request (some r) = refl
message_of-fields message_id from to timestamp body response none = refl
message_of-fields message_id from to timestamp body response (some r) = refl

-- An envelope survives its encoding as a JSON object.
pub message_of-message_json : (m : PeerMessage) → message_of (message_json m) ≡ some m
message_of-message_json m =
    message_of-fields m.message_id m.from m.to m.timestamp m.body m.kind m.reply_to

load_from-append :
    (p : Platform) (found : Dict PeerMessage) (lines : List String) (line : String)
    → load_from p found (lines ++ line ∷ [])
      ≡ add_message (load_from p found lines) (parse_line p line)
unfolding load_from
load_from-append p found [] line = refl
load_from-append p found (l ∷ lines) line =
    load_from-append p (add_message found (parse_line p l)) lines line

parse_line-message_json :
    (p : Platform) (m : PeerMessage)
    → JsonLaws p (message_json m)
    → parse_line p (p.stringify (message_json m)) ≡ some m
parse_line-message_json p m laws =
    rw (str_eq-eq-false _ _ laws.stringify-ne-empty, laws.parse-stringify)
      (message_of-message_json m)

-- Where the last line has an end, nothing follows it.
load_all-ended :
    (p : Platform) (log : MessageLog) → log.rest ≡ "" → load_all p log ≡ load_from p [] log.lines
unfolding load_all
load_all-ended p log ended =
    ap (λ r. load_from p [] (log.lines ++ r ∷ [])) ended ∙ load_from-append p [] log.lines ""

-- If the platform reads back the message that it prints, and the last line of the log has an end, then
-- reading the log after an append finds what was there and the new message, which replaces an older one
-- with the same id, and the last line has an end again.
pub load_all-append :
    (p : Platform) (log : MessageLog) (m : PeerMessage)
    → JsonLaws p (message_json m)
    → log.rest ≡ ""
    → (load_all p (append p log m) ≡ Dict.set (load_all p log) m.message_id m)
      × ((append p log m).rest ≡ "")
unfolding append
load_all-append p log m laws ended = (
  load_all-ended p (append p log m) refl
      ∙ load_from-append p [] log.lines (str_append log.rest (p.stringify (message_json m)))
      ∙ ap
          (λ r.
            add_message (load_from p [] log.lines)
              (parse_line p (str_append r (p.stringify (message_json m)))))
          ended
      ∙ ap (λ t. add_message (load_from p [] log.lines) (parse_line p t))
          (nil-append (p.stringify (message_json m)))
      ∙ ap (add_message (load_from p [] log.lines)) (parse_line-message_json p m laws)
      ∙ ap (λ d. Dict.set d m.message_id m) (sym (load_all-ended p log ended)),
  refl,
)

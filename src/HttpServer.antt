-- ===== src/HttpServer.antt =====
-- The HTTP front of the coordinator (startHttpServer and its helpers in src/server/index.ts): who may
-- talk to it, on which hosts it listens, and the connections of its two transports. The SDK's transports
-- and Express are outside: a transport is its session id, and the SDK says whether it took a request.
pub mod Host
pub mod Connections
pub mod Auth
use Prim.Native.String
use agentic_mcp_teaming.Common.{
  ℕ, String, Bool, true, false, ◌&&◌, not, Option, none, some, List, ◌∷◌, leb, contains, bytes_eq,
  if◌then◌else◌,
}
use agentic_mcp_teaming.Dict.{Dict}
use agentic_mcp_teaming.Dict
use agentic_mcp_teaming.Platform.{Platform}
use agentic_mcp_teaming.Text.{is_empty, trim}
use agentic_mcp_teaming.Text.Find.{strip_prefix}
use Host.{byte_length}

pub data Method : Type 0 where
  get_request post_request delete_request : Method

-- The parts of a request that the server reads.
pub record HttpRequest : Type 0 where
  pub authorization : Option String
  pub query_token : Option String
  pub host : Option String
  pub pane_token_header : Option String
  pub query_session_id : String
  pub mcp_session_id : Option String
  pub method : Method
  pub is_initialize : Bool

abbrev or_else : Option String → Option String → Option String
or_else none b = b
or_else (some a) b = some a

abbrev bearer : Option String → Option String
bearer none = none
bearer (some header) = strip_prefix "Bearer " header

unfoldable pub extract_request_token : HttpRequest → Option String
unfolding strip_prefix
extract_request_token r = or_else (bearer r.authorization) r.query_token

-- `!token`: an empty token counts as none.
abbrev pub presented : Option String → Option String
presented none = none
presented (some token) = if is_empty token then none else some token

abbrev pub same_token : Platform → String → Option String → Bool
same_token p expected none = false
same_token p expected (some token) = bytes_eq (p.sha256 token) (p.sha256 expected)

abbrev authorized_by : Platform → Option String → Option String → Bool
authorized_by p token none = true
authorized_by p token (some expected) = same_token p expected token

unfoldable pub is_authorized_request : Platform → HttpRequest → Option String → Bool
unfolding extract_request_token bytes_eq
is_authorized_request p r expected =
    authorized_by p (presented (extract_request_token r)) (presented expected)

abbrev pub pane_token_min_bytes : ℕ
pane_token_min_bytes = 32

abbrev pub pane_token_max_bytes : ℕ
pane_token_max_bytes = 512

abbrev pane_token_of : Option String → Option String
pane_token_of none = none
pane_token_of (some header) =
    let trimmed = trim header in
    if leb pane_token_min_bytes (byte_length trimmed)
      && leb (byte_length trimmed) pane_token_max_bytes
    then some trimmed
    else none

unfoldable pub extract_pane_token : HttpRequest → Option String
unfolding trim byte_length
extract_pane_token r = pane_token_of r.pane_token_header

pub record HttpSecurity : Type 0 where
  pub auth_token : Option String
  pub allowed_hosts : Option (List String)

abbrev in_hosts : List String → Option String → Bool
in_hosts hosts none = false
in_hosts hosts (some host) = contains hosts host

abbrev host_in : Option (List String) → Option String → Bool
host_in none host = true
host_in (some hosts) host = in_hosts hosts host

unfoldable pub host_allowed : HttpSecurity → HttpRequest → Bool
unfolding contains
host_allowed c r = host_in c.allowed_hosts r.host

-- What `serverFactory` makes for a connection.
pub record ConnectionServer : Type 0 where
  pub pane_token : Option String

-- The four maps, and the ids whose server was closed.
pub record HttpState : Type 0 where
  pub transports : Dict (Option String)
  pub connection_servers : Dict ConnectionServer
  pub streamable_transports : Dict (Option String)
  pub streamable_servers : Dict ConnectionServer
  pub closed : List String

pub data HttpResponse : Type 0 where
  unauthorized forbidden session_not_found : HttpResponse
  -- The request is the transport's of this session.
  handed_to : (session_id : String) → HttpResponse

abbrev pub server_for : HttpRequest → ConnectionServer
server_for r = record { pane_token = extract_pane_token r }

-- GET /sse; the SDK draws the session id.
unfoldable pub open_sse :
    Platform → HttpSecurity → HttpRequest → String → HttpState → HttpState × HttpResponse
unfolding extract_pane_token
open_sse p c r session_id s =
    if not (is_authorized_request p r c.auth_token)
    then (s, unauthorized)
    else if not (host_allowed c r)
    then (s, forbidden)
    else (
      record s {
        transports = Dict.set s.transports session_id (extract_pane_token r);
        connection_servers = Dict.set s.connection_servers session_id (server_for r);
      },
      handed_to session_id,
    )

abbrev pub closed_with : Option ConnectionServer → String → List String → List String
closed_with none session_id closed = closed
closed_with (some server) session_id closed = session_id ∷ closed

-- The `close` event of the stream
unfoldable pub close_sse : String → HttpState → HttpState
close_sse session_id s = record s {
  transports = Dict.delete s.transports session_id;
  connection_servers = Dict.delete s.connection_servers session_id;
  closed = closed_with (Dict.get s.connection_servers session_id) session_id s.closed;
}

-- POST /message
unfoldable pub post_message : Platform → HttpSecurity → HttpRequest → HttpState → HttpResponse
post_message p c r s =
    if not (is_authorized_request p r c.auth_token)
    then unauthorized
    else if Dict.has s.transports r.query_session_id
    then handed_to r.query_session_id
    else session_not_found

abbrev pub is_post : Method → Bool
is_post post_request = true
is_post _ = false

abbrev pub known : HttpState → Option String → Option String
known s none = none
known s (some session_id) =
    if Dict.has s.streamable_transports session_id then some session_id else none

abbrev pub absent : Option String → Bool
absent none = true
absent (some session_id) = false

-- The SDK calls `onsessioninitialized` where it takes the request.
abbrev pub initialized : HttpRequest → String → Bool → HttpState → HttpState
initialized r session_id taken s =
    if taken
    then record s {
      streamable_transports = Dict.set s.streamable_transports session_id (extract_pane_token r);
      streamable_servers = Dict.set s.streamable_servers session_id (server_for r);
    }
    else s

abbrev pub route :
    HttpRequest → String → Bool → HttpState → Option String → HttpState × HttpResponse
route r new_id taken s (some session_id) = (s, handed_to session_id)
route r new_id taken s none =
    if absent r.mcp_session_id && is_post r.method && r.is_initialize
    then (initialized r new_id taken s, handed_to new_id)
    else (s, session_not_found)

-- /mcp: `new_id` is the id that the SDK draws for a new session, and `taken` whether it takes the request.
unfoldable pub handle_streamable_request :
    Platform → HttpSecurity → HttpRequest → String → Bool → HttpState → HttpState × HttpResponse
unfolding extract_pane_token
handle_streamable_request p c r new_id taken s =
    if not (is_authorized_request p r c.auth_token)
    then (s, unauthorized)
    else route r new_id taken s (known s r.mcp_session_id)

-- `transport.onclose` of a session that was initialized
unfoldable pub close_streamable : String → HttpState → HttpState
close_streamable session_id s = record s {
  streamable_transports = Dict.delete s.streamable_transports session_id;
  streamable_servers = Dict.delete s.streamable_servers session_id;
  closed = session_id ∷ s.closed;
}

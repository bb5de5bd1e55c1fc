-- ===== src/Tests/Serving.antt =====
-- The theorems on the HTTP front (src/server/index.ts) with one stream that is opened and one that is
-- refused.
use agentic_mcp_teaming.Common.{
  String, ◌≡◌, ◌≢◌, refl, sym, subst, ap, true, false, Option, none, some, List, [], ◌∷◌, arith,
}
use mathlib.Core.Option.{some-injective}
use agentic_mcp_teaming.Dict
use agentic_mcp_teaming.HttpServer.{
  HttpRequest, post_request, extract_request_token, is_authorized_request, HttpSecurity,
  host_allowed, HttpState, unauthorized, open_sse, post_message, handle_streamable_request,
}
use agentic_mcp_teaming.HttpServer.Host.{is_loopback_host, coordinator_sse_url}
use agentic_mcp_teaming.HttpServer.Connections.{
  no_connections, Event, opens, streams, IsVouched, serve, serve-IsVouched,
}
use agentic_mcp_teaming.HttpServer.Auth.{requests_need_token}
use agentic_mcp_teaming.Tests.{toy, toy_platform, size, first_byte}

abbrev request : Option String → HttpRequest
request authorization = record {
  authorization = authorization;
  query_token = none;
  host = some "localhost:3100";
  pane_token_header = some "0123456789012345678901234567890123456789";
  query_session_id = "s1";
  mcp_session_id = none;
  method = post_request;
  is_initialize = true;
}

abbrev security : HttpSecurity
security = record { auth_token = some "secret"; allowed_hosts = some ("localhost:3100" ∷ []) }

abbrev trusted : HttpRequest
trusted = request (some "Bearer secret")

-- The last one first: a request without the token comes between the two that have it.
abbrev three_requests : List Event
three_requests =
    streams trusted "m1" true ∷ opens (request (some "Bearer no")) "s2" ∷ opens trusted "s1" ∷ []

abbrev two_streams : HttpState
two_streams = serve toy security three_requests

both_opened :
    (Dict.has two_streams.transports "s1" ≡ true)
    × (Dict.has two_streams.transports "s2" ≡ false)
    × (Dict.has two_streams.streamable_servers "m1" ≡ true)
unfolding serve Dict.has Dict.get handle_streamable_request is_authorized_request
    agentic_mcp_teaming.Tests.toy_platform open_sse host_allowed Dict.set
both_opened = (refl, refl, refl)

serve-IsVouched_example : IsVouched toy security three_requests (serve toy security three_requests)
serve-IsVouched_example = serve-IsVouched toy security three_requests

other_hash : (t : String) → some "no" ≡ some t → toy.sha256 t ≢ toy.sha256 "secret"
unfolding toy_platform size
other_hash t e h =
    let same : t ≡ "no" = sym (some-injective _ _ e) in
    let hashes : toy.sha256 "no" ≡ toy.sha256 "secret" =
      subst (λ u. toy.sha256 u ≡ toy.sha256 "secret") same h in
    absurd (omega (arith, ap first_byte hashes))

requests_need_token_example :
    (open_sse toy security (request (some "Bearer no")) "s1" no_connections
      ≡ (no_connections, unauthorized))
    × (post_message toy security (request (some "Bearer no")) no_connections ≡ unauthorized)
    × (handle_streamable_request toy security (request (some "Bearer no")) "m1" true no_connections
        ≡ (no_connections, unauthorized))
unfolding extract_request_token handle_streamable_request Dict.set is_authorized_request
    agentic_mcp_teaming.Tests.toy_platform
requests_need_token_example =
    requests_need_token toy security (request (some "Bearer no")) no_connections "s1" true "secret"
      refl refl other_hash

loopback_by_prefix : is_loopback_host "127.example.org" ≡ true
unfolding is_loopback_host
loopback_by_prefix = refl

bracketed_address : coordinator_sse_url false "::1" none "3100" ≡ "http://[::1]:3100/sse"
unfolding coordinator_sse_url
bracketed_address = refl

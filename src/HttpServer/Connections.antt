-- ===== src/HttpServer/Connections.antt =====
-- The connections of the server (src/server/index.ts): which are live, and for whom.
use agentic_mcp_teaming.Common.{
  String, ◌≡◌, refl, ap, Bool, true, false, ◌&&◌, Option, none, some, List, [], ◌∷◌, arith, str_eq,
  eq_iff, Bool-cases, ◌⊎◌, inl, inr,
}
use agentic_mcp_teaming.Dict
use agentic_mcp_teaming.Dict.{get-set, get-delete}
use agentic_mcp_teaming.Platform.{Platform}
use agentic_mcp_teaming.HttpServer.{
  HttpRequest, is_authorized_request, HttpSecurity, host_allowed, ConnectionServer, server_for,
  HttpState, open_sse, close_sse, is_post, known, route, absent, handle_streamable_request,
  close_streamable,
}

abbrev pub no_connections : HttpState
no_connections = record {
  transports = [];
  connection_servers = [];
  streamable_transports = [];
  streamable_servers = [];
  closed = [];
}

-- What happens to the server: requests in any order, and streams that close at any time.
pub data Event : Type 0 where
  opens : (r : HttpRequest) (id : String) → Event
  closes : (id : String) → Event
  streams : (r : HttpRequest) (id : String) (taken : Bool) → Event
  ends : (id : String) → Event

-- An event is one of those that happened, the last one first.
abbrev pub Happened : Event → List Event → Type 0
Happened e [] = ⊥
Happened e (x ∷ xs) = (x ≡ e) ⊎ Happened e xs

module _ (p : Platform) (c : HttpSecurity) where
  abbrev pub after_event : HttpState → Event → HttpState
  after_event s (opens r id) = (open_sse p c r id s).0
  after_event s (closes id) = close_sse id s
  after_event s (streams r id taken) = (handle_streamable_request p c r id taken s).0
  after_event s (ends id) = close_streamable id s

  -- The state after events, the last one first.
  unfoldable pub serve : List Event → HttpState
  serve [] = no_connections
  serve (e ∷ es) = after_event (serve es) e

  -- The request that opened an SSE connection, and the one that initialized a session of /mcp.
  pub record Opened (es : List Event) (id : String) (server : ConnectionServer) : Type 0 where
    pub request : HttpRequest
    pub happened : Happened (opens request id) es
    pub authorized : is_authorized_request p request c.auth_token ≡ true
    pub allowed : host_allowed c request ≡ true
    pub bound_to : server ≡ server_for request

  pub record Initialized (es : List Event) (id : String) (server : ConnectionServer) : Type 0 where
    pub request : HttpRequest
    pub happened : Happened (streams request id true) es
    pub authorized : is_authorized_request p request c.auth_token ≡ true
    pub initialize : (is_post request.method ≡ true) × (request.is_initialize ≡ true)
    pub bound_to : server ≡ server_for request

  -- Every connection has a server, and every server was made for an authorized request that came for
  -- the connection.
  pub record IsVouched (es : List Event) (s : HttpState) : Type 0 where
    pub paired : (id : String) → Dict.has s.transports id ≡ Dict.has s.connection_servers id
    pub paired_mcp :
        (id : String) → Dict.has s.streamable_transports id ≡ Dict.has s.streamable_servers id
    pub opened :
        (id : String) (server : ConnectionServer)
        → Dict.get s.connection_servers id ≡ some server
        → Opened es id server
    pub initialized :
        (id : String) (server : ConnectionServer)
        → Dict.get s.streamable_servers id ≡ some server
        → Initialized es id server

  later-Opened :
      (e : Event) {es : List Event} {id : String} {server : ConnectionServer}
      → Opened es id server
      → Opened (e ∷ es) id server
  later-Opened e o = record {
    request = o.request;
    happened = inr o.happened;
    authorized = o.authorized;
    allowed = o.allowed;
    bound_to = o.bound_to;
  }

  later-Initialized :
      (e : Event) {es : List Event} {id : String} {server : ConnectionServer}
      → Initialized es id server
      → Initialized (e ∷ es) id server
  later-Initialized e o = record {
    request = o.request;
    happened = inr o.happened;
    authorized = o.authorized;
    initialize = o.initialize;
    bound_to = o.bound_to;
  }

  later-IsVouched :
      (e : Event) {es : List Event} {s : HttpState} → IsVouched es s → IsVouched (e ∷ es) s
  later-IsVouched e v = record {
    paired = v.paired;
    paired_mcp = v.paired_mcp;
    opened = λ id server h. later-Opened e (v.opened id server h);
    initialized = λ id server h. later-Initialized e (v.initialized id server h);
  }

  -- An entry of a map that was set is the new one or an old one.
  get-set_cases :
      {V : Type 0} (d : Dict.Dict V) (k id : String) (v w : V)
      → Dict.get (Dict.set d k v) id ≡ some w
      → ((k ≡ id) × (w ≡ v)) ⊎ (Dict.get d id ≡ some w)
  get-set_cases d k id v w h = elim (Bool-cases (str_eq k id)) [
    | inl e ↦ inl ((eq_iff k id).0 e, ground (arith, get-set d k v id, h, e))
    | inr e ↦ inr (ground (arith, get-set d k v id, h, e))
  ]

  get-delete_cases :
      {V : Type 0} (d : Dict.Dict V) (k id : String) (w : V)
      → Dict.get (Dict.delete d k) id ≡ some w
      → Dict.get d id ≡ some w
  get-delete_cases d k id w h = elim (Bool-cases (str_eq k id)) [
    | inl e ↦ absurd (ground (arith, get-delete d k id, h, e))
    | inr e ↦ ground (arith, get-delete d k id, h, e)
  ]

  has-set_pair :
      {V W : Type 0} (d : Dict.Dict V) (e : Dict.Dict W) (k id : String) (v : V) (w : W)
      → Dict.has d id ≡ Dict.has e id
      → Dict.has (Dict.set d k v) id ≡ Dict.has (Dict.set e k w) id
  unfolding Dict.has
  has-set_pair d e k id v w h = elim (Bool-cases (str_eq k id)) [
    | inl q ↦ rw (get-set d k v id, get-set e k w id, q) refl
    | inr q ↦ rw (get-set d k v id, get-set e k w id, q) h
  ]

  has-delete_pair :
      {V W : Type 0} (d : Dict.Dict V) (e : Dict.Dict W) (k id : String)
      → Dict.has d id ≡ Dict.has e id
      → Dict.has (Dict.delete d k) id ≡ Dict.has (Dict.delete e k) id
  unfolding Dict.has
  has-delete_pair d e k id h = elim (Bool-cases (str_eq k id)) [
    | inl q ↦ rw (get-delete d k id, get-delete e k id, q) refl
    | inr q ↦ rw (get-delete d k id, get-delete e k id, q) h
  ]

  open_sse-IsVouched :
      (r : HttpRequest) (id : String) (es : List Event) (s : HttpState)
      → IsVouched (opens r id ∷ es) s
      → IsVouched (opens r id ∷ es) (open_sse p c r id s).0
  unfolding open_sse
  open_sse-IsVouched r id es s v = elim (Bool-cases (is_authorized_request p r c.auth_token)) [
    | inr e ↦ rw e v
    | inl e ↦ elim (Bool-cases (host_allowed c r)) [
      | inr f ↦ rw (e, f) v
      | inl f ↦
          rw (e, f)
            (record {
              paired = λ k. has-set_pair s.transports s.connection_servers id k _ _ (v.paired k);
              paired_mcp = v.paired_mcp;
              opened = λ k server h. elim (get-set_cases s.connection_servers id k _ server h) [
                | inl (same, new) ↦ record {
                  request = r;
                  happened = inl (ap (opens r) same);
                  authorized = e;
                  allowed = f;
                  bound_to = new;
                }
                | inr old ↦ v.opened k server old
              ];
              initialized = v.initialized;
            })
    ]
  ]

  close_sse-IsVouched :
      (id : String) (es : List Event) (s : HttpState)
      → IsVouched es s
      → IsVouched es (close_sse id s)
  unfolding close_sse
  close_sse-IsVouched id es s v = record {
    paired = λ k. has-delete_pair s.transports s.connection_servers id k (v.paired k);
    paired_mcp = v.paired_mcp;
    opened = λ k server h. v.opened k server (get-delete_cases s.connection_servers id k server h);
    initialized = v.initialized;
  }

  close_streamable-IsVouched :
      (id : String) (es : List Event) (s : HttpState)
      → IsVouched es s
      → IsVouched es (close_streamable id s)
  unfolding close_streamable
  close_streamable-IsVouched id es s v = record {
    paired = v.paired;
    paired_mcp =
        λ k. has-delete_pair s.streamable_transports s.streamable_servers id k (v.paired_mcp k);
    opened = v.opened;
    initialized =
        λ k server h. v.initialized k server (get-delete_cases s.streamable_servers id k server h);
  }

  route-IsVouched :
      (r : HttpRequest) (id : String) (taken : Bool) (es : List Event) (s : HttpState)
      (found : Option String)
      → is_authorized_request p r c.auth_token ≡ true
      → IsVouched (streams r id taken ∷ es) s
      → IsVouched (streams r id taken ∷ es) (route r id taken s found).0
  route-IsVouched r id taken es s (some session_id) auth v = v
  route-IsVouched r id false es s none auth v =
      elim (Bool-cases (absent r.mcp_session_id && is_post r.method && r.is_initialize)) [
        | inl e ↦ rw e v
        | inr e ↦ rw e v
      ]
  route-IsVouched r id true es s none auth v =
      elim (Bool-cases (absent r.mcp_session_id && is_post r.method && r.is_initialize)) [
        | inr e ↦ rw e v
        | inl e ↦ rw e (record {
          paired = v.paired;
          paired_mcp = λ k.
              has-set_pair s.streamable_transports s.streamable_servers id k _ _ (v.paired_mcp k);
          opened = v.opened;
          initialized = λ k server h. elim (get-set_cases s.streamable_servers id k _ server h) [
            | inl (same, new) ↦ record {
              request = r;
              happened = inl (ap (λ i. streams r i true) same);
              authorized = auth;
              initialize = (ground (arith, e), ground (arith, e));
              bound_to = new;
            }
            | inr old ↦ v.initialized k server old
          ];
        })
      ]

  streamable-IsVouched :
      (r : HttpRequest) (id : String) (taken : Bool) (es : List Event) (s : HttpState)
      → IsVouched (streams r id taken ∷ es) s
      → IsVouched (streams r id taken ∷ es) (handle_streamable_request p c r id taken s).0
  unfolding handle_streamable_request
  streamable-IsVouched r id taken es s v =
      elim (Bool-cases (is_authorized_request p r c.auth_token)) [
        | inr e ↦ rw e v
        | inl e ↦ rw e (route-IsVouched r id taken es s (known s r.mcp_session_id) e v)
      ]

-- Whatever requests come and whenever streams close, each SSE connection has exactly one server, made for
-- a request with the right token and an allowed host that came for it, and bound to the pane token of that
-- request; each session of /mcp has one, made for an authorized POST that came for it and initializes;
-- neither map has a server without its transport.
pub serve-IsVouched :
    (p : Platform) (c : HttpSecurity) (es : List Event) → IsVouched p c es (serve p c es)
unfolding serve Dict.has Dict.get
serve-IsVouched p c [] = record {
  paired = λ id. refl;
  paired_mcp = λ id. refl;
  opened = λ id server h. cc;
  initialized = λ id server h. cc;
}
serve-IsVouched p c (opens r id ∷ es) =
    open_sse-IsVouched p c r id es (serve p c es)
      (later-IsVouched p c (opens r id) (serve-IsVouched p c es))
serve-IsVouched p c (closes id ∷ es) =
    close_sse-IsVouched p c id (closes id ∷ es) (serve p c es)
      (later-IsVouched p c (closes id) (serve-IsVouched p c es))
serve-IsVouched p c (streams r id taken ∷ es) =
    streamable-IsVouched p c r id taken es (serve p c es)
      (later-IsVouched p c (streams r id taken) (serve-IsVouched p c es))
serve-IsVouched p c (ends id ∷ es) =
    close_streamable-IsVouched p c id (ends id ∷ es) (serve p c es)
      (later-IsVouched p c (ends id) (serve-IsVouched p c es))

-- ===== src/HttpServer/Auth.antt =====
-- Requests without the right token (src/server/index.ts).
use agentic_mcp_teaming.Common.{
  String, ◌≡◌, ◌≢◌, refl, Bool, false, Option, none, some, bytes_eq, bytes_eq-eq, Bool-cases, inl,
  inr,
}
use agentic_mcp_teaming.Platform.{Platform}
use agentic_mcp_teaming.Text.{is_empty}
use agentic_mcp_teaming.HttpServer.{
  HttpRequest, extract_request_token, is_authorized_request, presented, same_token, HttpSecurity,
  HttpState, unauthorized, open_sse, post_message, handle_streamable_request,
}

abbrev WrongToken : Platform → Option String → String → Type 0
WrongToken p token expected = (t : String) → token ≡ some t → p.sha256 t ≢ p.sha256 expected

WrongToken-refused :
    (p : Platform) (expected : String) (token : Option String)
    → WrongToken p token expected
    → same_token p expected (presented token) ≡ false
WrongToken-refused p expected none wrong = refl
WrongToken-refused p expected (some t) wrong = elim (Bool-cases (is_empty t)) [
  | inl e ↦ rw e refl
  | inr e ↦ rw e (elim (Bool-cases (bytes_eq (p.sha256 t) (p.sha256 expected))) [
    | inl same ↦ absurd (wrong t refl (bytes_eq-eq _ _ same))
    | inr other ↦ other
  ])
]

-- Where a token is configured, and it is not empty, a request that shows no token, or one with another
-- hash, is answered 401 on each of the three routes, and no connection is opened or changed by it.
pub requests_need_token :
    (p : Platform) (c : HttpSecurity) (r : HttpRequest) (s : HttpState) (id : String) (taken : Bool)
    (expected : String)
    → c.auth_token ≡ some expected
    → is_empty expected ≡ false
    → ((t : String) → extract_request_token r ≡ some t → p.sha256 t ≢ p.sha256 expected)
    → (open_sse p c r id s ≡ (s, unauthorized))
      × (post_message p c r s ≡ unauthorized)
      × (handle_streamable_request p c r id taken s ≡ (s, unauthorized))
unfolding open_sse post_message handle_streamable_request is_authorized_request
requests_need_token p c r s id taken expected configured filled wrong =
    let no_match = WrongToken-refused p expected (extract_request_token r) wrong in
    (
      rw (configured, filled, no_match) refl,
      rw (configured, filled, no_match) refl,
      rw (configured, filled, no_match) refl,
    )

-- ===== src/SessionRegistry/Auth.antt =====
-- `authenticate` of SessionRegistry (src/core/session-registry.ts): the last entry whose stored hash
-- is the hash of the presented token.
pub mod Laws
use agentic_mcp_teaming.Common.{
  ℕ, String, Bool, ◌&&◌, not, Option, none, some, List, [], ◌∷◌, str_eq, if◌then◌else◌, bytes_eq,
}
use agentic_mcp_teaming.Dict
use agentic_mcp_teaming.Platform.{Platform}
use agentic_mcp_teaming.SessionRegistry.{SessionEntry, SessionRegistry}
use agentic_mcp_teaming.SessionRegistry.Register.{zero_sentinel, compare_target}

-- One round of the loop. The test on the empty hash keeps a wiped entry from matching.
unfoldable pub token_matches : Platform → List ℕ → SessionEntry → Bool
unfolding compare_target bytes_eq
token_matches p presented e =
    let is_empty = str_eq e.token_hash "" in
    let stored = if is_empty then zero_sentinel else p.from_hex e.token_hash in
    bytes_eq presented (compare_target stored) && not is_empty

unfoldable pub last_match :
    Platform → List ℕ → Option SessionEntry → List SessionEntry → Option SessionEntry
unfolding token_matches
last_match p presented matched [] = matched
last_match p presented matched (e ∷ es) =
    last_match p presented (if token_matches p presented e then some e else matched) es

unfoldable pub authenticate : Platform → SessionRegistry → String → Option SessionEntry
unfolding last_match Dict.values
authenticate p r raw_token = last_match p (p.sha256 raw_token) none (Dict.values r.sessions)

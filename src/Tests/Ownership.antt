-- ===== src/Tests/Ownership.antt =====
-- The theorems on `register`, `authenticate` and the wake state (src/core/session-registry.ts) on two
-- sessions.
use agentic_mcp_teaming.Common.{String, ◌≡◌, ◌≢◌, ◌⊎◌, refl, false, Option, none, some, [], ◌∷◌}
use agentic_mcp_teaming.Dict
use agentic_mcp_teaming.Platform.{null}
use agentic_mcp_teaming.Patterns.{session_name_regex}
use agentic_mcp_teaming.SessionRegistry.{SessionEntry, SessionRegistry, fresh_wake_state}
use agentic_mcp_teaming.SessionRegistry.Register.{
  RegisterParams, RegisterResult, undefined, register, within_ttl,
}
use agentic_mcp_teaming.SessionRegistry.Register
use agentic_mcp_teaming.SessionRegistry.Register.Ownership.{owner_keeps_name}
use agentic_mcp_teaming.SessionRegistry.Auth.{authenticate, token_matches}
use agentic_mcp_teaming.SessionRegistry.Auth.Laws.{authenticate_sound, new_token_authenticates}
use agentic_mcp_teaming.Tests.{toy, toy_laws, toy_platform, two_sessions, owned_by, dots, size}

abbrev ask : String → Option String → RegisterParams
ask name pane_token = record {
  name = name;
  pane_token = pane_token;
  auto_wake_key = undefined;
  inactivity_ttl_ms = 3;
  cmux_surface_id = undefined;
  cmux_workspace_id = undefined;
}

abbrev ann : SessionEntry
ann = owned_by "ann" "secret" ("m1" ∷ "m2" ∷ "lost" ∷ [])

-- At time 6 the owner of `ann` is active, at time 9 it is not.
owner_keeps_name_example :
    (token : String) × (some "secret" ≡ some token)
    × ((toy.sha256 token ≡ toy.sha256 "secret") ⊎ (within_ttl toy 6 (dots 5) 3 ≡ false))
unfolding register toy_platform dots size session_name_regex Dict.get
owner_keeps_name_example =
    owner_keeps_name toy (toy_laws null) 6 two_sessions (ask "ann" (some "secret")) "token" "secret"
      ann refl refl refl

-- Another caller takes the name over at time 9, since the owner was last seen at time 5.
abbrev taken_over : SessionEntry
taken_over = record ann {
  token_hash = toy.to_hex (toy.sha256 "token");
  pane_token_hash = some (toy.to_hex (toy.sha256 "intruder"));
  registered_at = dots 9;
  last_seen_at = dots 9;
  unread_message_ids = [];
  auto_wake_key = none;
}

abbrev after_takeover : RegisterResult × SessionRegistry
after_takeover = (
  record { entry = taken_over; raw_token = "token" },
  record {
    sessions = ("ann", taken_over) ∷ ("robert", owned_by "robert" "other-one" []) ∷ [];
    wake_states = ("ann", fresh_wake_state) ∷ [];
  },
)

authenticate_sound_example :
    (ann.token_hash ≢ "")
    × (Register.compare_target (toy.from_hex ann.token_hash) ≡ toy.sha256 "abc")
unfolding authenticate toy_platform dots size
authenticate_sound_example = authenticate_sound toy two_sessions "abc" ann refl

new_token_authenticates_example :
    authenticate toy after_takeover.1 "token" ≡ some after_takeover.0.entry
unfolding register toy_platform dots size session_name_regex Dict.get Dict.set Dict.values
    token_matches
new_token_authenticates_example =
    new_token_authenticates toy (toy_laws null) 9 two_sessions (ask "ann" (some "intruder")) "token"
      {out = after_takeover} (refl, (refl, tt)) refl

-- ===== src/SessionRegistry/Register.antt =====
-- `register` of SessionRegistry (src/core/session-registry.ts). The call is synchronous, so it reads
-- the clock once, as `now`; `raw_token` is the random token that it draws.
pub mod Ownership
pub mod Entries
use agentic_mcp_teaming.Common.{
  ℕ, ◌+◌, String, Bool, true, false, ◌&&◌, ◌||◌, not, Option, none, some, List, [], ◌∷◌, ltb, ◌==◌,
  length, if◌then◌else◌, is_some, bytes_eq, max,
}
use agentic_mcp_teaming.Dict
use agentic_mcp_teaming.Platform.{Platform}
use agentic_mcp_teaming.Patterns.{session_name_regex}
use agentic_mcp_teaming.SessionRegistry.{SessionEntry, SessionRegistry, fresh_wake_state}

-- An optional field of a request: `undefined`, `null` or a string.
pub data OptField : Type 0 where
  undefined null : OptField
  string : String → OptField

pub data ErrorCode : Type 0 where
  invalid_session_name invalid_pane_token_missing invalid_pane_token : ErrorCode

-- `ok`, or a `RegistryError` that is thrown.
pub data Result {ℓ} (A : Type ℓ) : Type ℓ where
  ok : A → Result A
  err : ErrorCode → Result A

infixl 5 ◌>>=◌
abbrev pub ◌>>=◌ {ℓ κ} : {A : Type ℓ} {B : Type κ} → Result A → (A → Result B) → Result B
ok a >>= f = f a
err e >>= f = err e

pub record RegisterParams : Type 0 where
  pub name : String
  pub pane_token : Option String
  pub auto_wake_key : OptField
  pub inactivity_ttl_ms : ℕ
  pub cmux_surface_id : OptField
  pub cmux_workspace_id : OptField

pub record RegisterResult : Type 0 where
  pub entry : SessionEntry
  pub raw_token : String

abbrev pub zero_sentinel : List ℕ
zero_sentinel =
    0 ∷ 0 ∷ 0 ∷ 0 ∷ 0 ∷ 0 ∷ 0 ∷ 0 ∷ 0 ∷ 0 ∷ 0 ∷ 0 ∷ 0 ∷ 0 ∷ 0 ∷ 0 ∷ 0 ∷ 0 ∷ 0 ∷ 0 ∷ 0 ∷ 0 ∷ 0 ∷ 0
    ∷ 0 ∷ 0 ∷ 0 ∷ 0 ∷ 0 ∷ 0 ∷ 0 ∷ 0 ∷ []

-- null clears, undefined keeps the current value of a preserved entry, a string overwrites.
unfoldable pub resolve_opt_field : OptField → Option String → Bool → Option String
resolve_opt_field null current preserve_existing = none
resolve_opt_field undefined current preserve_existing = if preserve_existing then current else none
resolve_opt_field (string s) current preserve_existing = some s

-- A stored hash that is not 32 bytes is compared as zeros.
unfoldable pub compare_target : List ℕ → List ℕ
compare_target stored = if length stored == 32 then stored else zero_sentinel

unfoldable pub presented_hash : Platform → Option String → List ℕ
presented_hash p none = zero_sentinel
presented_hash p (some token) = p.sha256 token

unfoldable pub registration_time_after : Platform → ℕ → String → String
registration_time_after p now previous = elim (p.date_parse previous) [
  | none ↦ p.to_iso now
  | some previous_time ↦ p.to_iso (max now (previous_time + 1))
]

-- `age < inactivityTtlMs`, where `age` is now - last seen, or 0 if the date does not parse.
abbrev pub age_below : ℕ → Option ℕ → ℕ → Bool
age_below now none ttl = ltb 0 ttl
age_below now (some last_seen) ttl = ltb now (ttl + last_seen)

unfoldable pub within_ttl : Platform → ℕ → String → ℕ → Bool
within_ttl p now last_seen_at ttl = ttl == 0 || age_below now (p.date_parse last_seen_at) ttl

-- Whether the entry's identity is kept; the cases of an entry with and without a credential.
unfoldable pub preserve_owned : Platform → ℕ → RegisterParams → SessionEntry → String → Result Bool
unfolding compare_target presented_hash within_ttl bytes_eq
preserve_owned p now q existing stored =
    let hash_match =
      bytes_eq (presented_hash p q.pane_token) (compare_target (p.from_hex stored)) in
    if hash_match && is_some q.pane_token
    then ok true
    else if not (is_some q.pane_token)
    then err invalid_pane_token_missing
    else if within_ttl p now existing.last_seen_at q.inactivity_ttl_ms
    then err invalid_pane_token
    else ok false

abbrev preserve_entry : Platform → ℕ → RegisterParams → SessionEntry → Option String → Result Bool
preserve_entry p now q existing none = ok true
preserve_entry p now q existing (some stored) = preserve_owned p now q existing stored

unfoldable pub preserves : Platform → ℕ → RegisterParams → Option SessionEntry → Result Bool
unfolding preserve_owned
preserves p now q none = ok false
preserves p now q (some existing) = preserve_entry p now q existing existing.pane_token_hash

abbrev pub new_pane_token_hash : Platform → Option String → Option String
new_pane_token_hash p none = none
new_pane_token_hash p (some token) = some (p.to_hex (p.sha256 token))

abbrev or_else : Option String → Option String → Option String
or_else none o = o
or_else (some s) o = some s

abbrev field_of : (SessionEntry → Option String) → Option SessionEntry → Option String
field_of f none = none
field_of f (some e) = f e

unfoldable pub preserved_entry :
    Platform → ℕ → RegisterParams → String → SessionEntry → SessionEntry
unfolding resolve_opt_field
preserved_entry p now q raw_token existing = record {
  name = q.name;
  token_hash = p.to_hex (p.sha256 raw_token);
  pane_token_hash = or_else (new_pane_token_hash p q.pane_token) existing.pane_token_hash;
  registered_at = existing.registered_at;
  last_seen_at = p.to_iso now;
  unread_message_ids = existing.unread_message_ids;
  auto_wake_key = resolve_opt_field q.auto_wake_key existing.auto_wake_key true;
  cmux_surface_id = resolve_opt_field q.cmux_surface_id existing.cmux_surface_id true;
  cmux_workspace_id = resolve_opt_field q.cmux_workspace_id existing.cmux_workspace_id true;
  wake_target = resolve_opt_field q.cmux_surface_id existing.cmux_surface_id true;
}

abbrev fresh_time : Platform → ℕ → Option SessionEntry → String
fresh_time p now none = p.to_iso now
fresh_time p now (some existing) = registration_time_after p now existing.registered_at

unfoldable pub fresh_entry :
    Platform → ℕ → RegisterParams → String → Option SessionEntry → SessionEntry
unfolding resolve_opt_field registration_time_after
fresh_entry p now q raw_token existing = record {
  name = q.name;
  token_hash = p.to_hex (p.sha256 raw_token);
  pane_token_hash = new_pane_token_hash p q.pane_token;
  registered_at = fresh_time p now existing;
  last_seen_at = fresh_time p now existing;
  unread_message_ids = [];
  auto_wake_key =
      resolve_opt_field q.auto_wake_key (field_of (λ e. e.auto_wake_key) existing) false;
  cmux_surface_id =
      resolve_opt_field q.cmux_surface_id (field_of (λ e. e.cmux_surface_id) existing) false;
  cmux_workspace_id =
      resolve_opt_field q.cmux_workspace_id (field_of (λ e. e.cmux_workspace_id) existing) false;
  wake_target =
      resolve_opt_field q.cmux_surface_id (field_of (λ e. e.cmux_surface_id) existing) false;
}

-- `preserveExisting && existing !== undefined ? … : …`
unfoldable pub new_entry :
    Platform → ℕ → RegisterParams → String → Option SessionEntry → Bool → SessionEntry
unfolding preserved_entry fresh_entry
new_entry p now q raw_token (some existing) true = preserved_entry p now q raw_token existing
new_entry p now q raw_token existing preserve_existing = fresh_entry p now q raw_token existing

unfoldable pub store_entry : SessionRegistry → String → SessionEntry → SessionRegistry
store_entry r name entry = record {
  sessions = Dict.set r.sessions name entry;
  wake_states = Dict.set r.wake_states name fresh_wake_state;
}

unfoldable pub register :
    Platform
    → ℕ
    → SessionRegistry
    → RegisterParams
    → String
    → Result (RegisterResult × SessionRegistry)
unfolding preserves new_entry store_entry
register p now r q raw_token =
    if not (session_name_regex q.name) then err invalid_session_name else do
      let existing = Dict.get r.sessions q.name
      preserve_existing ← preserves p now q existing
      let entry = new_entry p now q raw_token existing preserve_existing
      ok (record { entry = entry; raw_token = raw_token }, store_entry r q.name entry)

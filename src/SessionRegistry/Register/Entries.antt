-- ===== src/SessionRegistry/Register/Entries.antt =====
-- What a successful `register` stores (src/core/session-registry.ts).
use agentic_mcp_teaming.Common.{
  Option, none, ℕ, ◌+◌, ◌≤◌, ◌<◌, String, ◌≡◌, ◌≢◌, refl, ◌⊎◌, Bool, true, false, some, [], arith,
  str_eq-eq-false, Bool-cases, inl, inr, max,
}
use agentic_mcp_teaming.Dict
use agentic_mcp_teaming.Platform.{Platform, PlatformLaws}
use agentic_mcp_teaming.Patterns.{session_name_regex}
use agentic_mcp_teaming.SessionRegistry.{SessionEntry, SessionRegistry, fresh_wake_state}
use agentic_mcp_teaming.SessionRegistry.Register.{
  OptField, undefined, null, string, resolve_opt_field, RegisterParams, RegisterResult, ErrorCode,
  Result, ok, err, invalid_session_name, preserves, new_entry, store_entry, register,
  registration_time_after, new_pane_token_hash,
}

abbrev pub stored :
    Platform
    → ℕ
    → SessionRegistry
    → RegisterParams
    → String
    → Bool
    → RegisterResult × SessionRegistry
stored p now r q raw_token keeps =
    let entry = new_entry p now q raw_token (Dict.get r.sessions q.name) keeps in
    (record { entry = entry; raw_token = raw_token }, store_entry r q.name entry)

pub Result-cases {ℓ} :
    {A : Type ℓ} (x : Result A) → ((a : A) × (x ≡ ok a)) ⊎ ((e : ErrorCode) × (x ≡ err e))
Result-cases (ok a) = inl (a, refl)
Result-cases (err e) = inr (e, refl)

pub register-kept :
    (p : Platform) (now : ℕ) (r : SessionRegistry) (q : RegisterParams) (raw_token : String)
    (keeps : Bool)
    → session_name_regex q.name ≡ true
    → preserves p now q (Dict.get r.sessions q.name) ≡ ok keeps
    → register p now r q raw_token ≡ ok (stored p now r q raw_token keeps)
register-kept p now r q raw_token keeps valid kept = unfold register in rw (valid, kept)

pub register-refused :
    (p : Platform) (now : ℕ) (r : SessionRegistry) (q : RegisterParams) (raw_token : String)
    (code : ErrorCode)
    → session_name_regex q.name ≡ true
    → preserves p now q (Dict.get r.sessions q.name) ≡ err code
    → register p now r q raw_token ≡ err code
register-refused p now r q raw_token code valid failed = unfold register in rw (valid, failed)

pub register-invalid :
    (p : Platform) (now : ℕ) (r : SessionRegistry) (q : RegisterParams) (raw_token : String)
    → session_name_regex q.name ≡ false
    → register p now r q raw_token ≡ err invalid_session_name
register-invalid p now r q raw_token invalid = unfold register in rw invalid

-- A successful call had a valid name, decided whether to keep the identity, and stored that entry.
pub register-inversion :
    (p : Platform) (now : ℕ) (r : SessionRegistry) (q : RegisterParams) (raw_token : String)
    {out : RegisterResult × SessionRegistry}
    → register p now r q raw_token ≡ ok out
    → (keeps : Bool) × (session_name_regex q.name ≡ true)
      × (preserves p now q (Dict.get r.sessions q.name) ≡ ok keeps)
      × (out ≡ stored p now r q raw_token keeps)
register-inversion p now r q raw_token h = elim (Bool-cases (session_name_regex q.name)) [
  | inl valid ↦ elim (Result-cases (preserves p now q (Dict.get r.sessions q.name))) [
    | inl (keeps, kept) ↦
        (keeps, valid, kept, cc (register-kept p now r q raw_token keeps valid kept))
    | inr (code, failed) ↦ cc (register-refused p now r q raw_token code valid failed)
  ]
  | inr invalid ↦ cc (register-invalid p now r q raw_token invalid)
]

-- Registering a name leaves every other session and its wake state alone.
pub register_other :
    (p : Platform) (now : ℕ) (r : SessionRegistry) (q : RegisterParams) (raw_token j : String)
    {out : RegisterResult × SessionRegistry}
    → register p now r q raw_token ≡ ok out
    → q.name ≢ j
    → (Dict.get out.1.sessions j ≡ Dict.get r.sessions j)
      × (Dict.get out.1.wake_states j ≡ Dict.get r.wake_states j)
unfolding store_entry
register_other p now r q raw_token j h other =
    let (keeps, _, _, e) = register-inversion p now r q raw_token h in
    let entry = new_entry p now q raw_token (Dict.get r.sessions q.name) keeps in
    rw e (
      rw (Dict.get-set r.sessions q.name entry j, str_eq-eq-false q.name j other),
      rw (Dict.get-set r.wake_states q.name fresh_wake_state j, str_eq-eq-false q.name j other),
    )

fresh_time-parses :
    (p : Platform)
    → PlatformLaws p
    → (now : ℕ) (e : SessionEntry) (previous : ℕ) → p.date_parse e.registered_at ≡ some previous
    → p.date_parse (registration_time_after p now e.registered_at) ≡ some (max now (previous + 1))
unfolding registration_time_after
fresh_time-parses p laws now e previous parsed =
    ground (arith, parsed, laws.date_parse-to_iso (max now (previous + 1)))

-- Taking over a stale name gives a registration time after the one that it replaces, an empty
-- mailbox, the new owner's credential, and no wake key or wake target but those that it asks for.
pub evicted_entry :
    (p : Platform)
    → PlatformLaws p
    → (now : ℕ) (r : SessionRegistry) (q : RegisterParams) (raw_token : String) (e : SessionEntry)
      (previous : ℕ) {out : RegisterResult × SessionRegistry}
    → register p now r q raw_token ≡ ok out
    → Dict.get r.sessions q.name ≡ some e
    → preserves p now q (some e) ≡ ok false
    → p.date_parse e.registered_at ≡ some previous
    → (t : ℕ) × (p.date_parse out.0.entry.registered_at ≡ some t)
      × (previous < t)
      × (now ≤ t)
      × (out.0.entry.unread_message_ids ≡ [])
      × (out.0.entry.pane_token_hash ≡ new_pane_token_hash p q.pane_token)
      × (out.0.entry.auto_wake_key ≡ resolve_opt_field q.auto_wake_key none false)
      × (out.0.entry.wake_target ≡ resolve_opt_field q.cmux_surface_id none false)
unfolding new_entry
evicted_entry p laws now r q raw_token e previous h there stale parsed =
    let (keeps, _, kept, eq) = register-inversion p now r q raw_token h in
    let lost : keeps ≡ false = cc (kept, there, stale) in
    (
      max now (previous + 1),
      rw (eq, lost, there, fresh_time-parses p laws now e previous parsed),
      omega arith,
      omega arith,
      rw (eq, lost, there),
      rw (eq, lost, there),
      rw (eq, lost, there) (own q.auto_wake_key e.auto_wake_key),
      rw (eq, lost, there) (own q.cmux_surface_id e.cmux_surface_id),
    )
  where
    own :
        (f : OptField) (old : Option String)
        → resolve_opt_field f old false ≡ resolve_opt_field f none false
    own undefined old = unfold resolve_opt_field in refl
    own null old = unfold resolve_opt_field in refl
    own (string x) old = unfold resolve_opt_field in refl

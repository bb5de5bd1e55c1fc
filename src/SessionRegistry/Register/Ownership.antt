-- ===== src/SessionRegistry/Register/Ownership.antt =====
-- Who may register a name that has an owner (`register`, src/core/session-registry.ts).
use agentic_mcp_teaming.Common.{
  ℕ, String, ◌≡◌, refl, sym, ◌∙◌, ◌⊎◌, inl, inr, Bool, true, false, Option, none, some, List, arith,
  bytes_eq, bytes_eq-eq, bytes_eq_refl, if◌then◌else◌, is_some, ◌&&◌, not, Bool-cases,
}
use agentic_mcp_teaming.Dict
use agentic_mcp_teaming.Platform.{Platform, PlatformLaws}
use agentic_mcp_teaming.Patterns.{session_name_regex}
use agentic_mcp_teaming.SessionRegistry.{SessionEntry, SessionRegistry}
use agentic_mcp_teaming.SessionRegistry.Register.{
  RegisterParams, RegisterResult, Result, ok, err, invalid_pane_token, invalid_pane_token_missing,
  preserves, preserve_owned, compare_target, presented_hash, within_ttl, register, new_entry,
  store_entry, zero_sentinel,
}
use agentic_mcp_teaming.SessionRegistry.Register.Entries.{
  register-inversion, register-kept, register-refused, stored,
}

-- The decision for an owned name, as a function of the credential that is presented.
abbrev decision : Platform → Option String → List ℕ → Bool → Result Bool
decision p pane target within =
    if bytes_eq (presented_hash p pane) target && is_some pane
    then ok true
    else if not (is_some pane)
    then err invalid_pane_token_missing
    else if within
    then err invalid_pane_token
    else ok false

takeover :
    (p : Platform) (pane : Option String) (target : List ℕ) (within keeps : Bool)
    → decision p pane target within ≡ ok keeps
    → (token : String) × (pane ≡ some token) × ((p.sha256 token ≡ target) ⊎ (within ≡ false))
unfolding presented_hash
takeover p none target within keeps h = ground (arith, Bool-cases (bytes_eq zero_sentinel target))
takeover p (some token) target true keeps h = (token, refl, inl (bytes_eq-eq _ _ (ground arith)))
takeover p (some token) target false keeps h = (token, refl, inr refl)

missing :
    (p : Platform) (pane : Option String) (target : List ℕ) (within : Bool)
    → pane ≡ none
    → decision p pane target within ≡ err invalid_pane_token_missing
missing p none target within e = ground arith
missing p (some token) target within e = cc

matching :
    (p : Platform) (pane : Option String) (owner : String) (within : Bool)
    → pane ≡ some owner
    → decision p pane (p.sha256 owner) within ≡ ok true
unfolding presented_hash
matching p pane owner within e = rw (e, bytes_eq_refl (p.sha256 owner))

module _ (p : Platform) (laws : PlatformLaws p) where
  -- The hash of a stored credential is compared as it is.
  pub compare_target-hash :
      (owner : String) → compare_target (p.from_hex (p.to_hex (p.sha256 owner))) ≡ p.sha256 owner
  unfolding compare_target
  compare_target-hash owner = rw (laws.from_hex-to_hex owner, laws.length-sha256 owner)

  -- The three outcomes for a name whose credential is the hash of `owner`.
  preserve_owned_lem :
      (now : ℕ) (q : RegisterParams) (e : SessionEntry) (owner : String)
      → preserve_owned p now q e (p.to_hex (p.sha256 owner))
        ≡ decision p q.pane_token
            (p.sha256 owner)
            (within_ttl p now e.last_seen_at q.inactivity_ttl_ms)
  preserve_owned_lem now q e owner = unfold preserve_owned in rw (compare_target-hash owner)

  preserves-owned :
      (now : ℕ) (r : SessionRegistry) (q : RegisterParams) (owner : String) (e : SessionEntry)
      → Dict.get r.sessions q.name ≡ some e
      → e.pane_token_hash ≡ some (p.to_hex (p.sha256 owner))
      → preserves p now q (Dict.get r.sessions q.name)
        ≡ preserve_owned p now q e (p.to_hex (p.sha256 owner))
  preserves-owned now r q owner e there owned = rw there (unfold preserves in ground (arith, owned))

  -- A name with a stored credential is registered again only by a caller that presents a token with
  -- the same hash, or after the owner has been silent for the inactivity limit.
  pub owner_keeps_name :
      (now : ℕ) (r : SessionRegistry) (q : RegisterParams) (raw_token owner : String)
      (e : SessionEntry) {out : RegisterResult × SessionRegistry}
      → Dict.get r.sessions q.name ≡ some e
      → e.pane_token_hash ≡ some (p.to_hex (p.sha256 owner))
      → register p now r q raw_token ≡ ok out
      → (token : String) × (q.pane_token ≡ some token)
        × ((p.sha256 token ≡ p.sha256 owner)
            ⊎ (within_ttl p now e.last_seen_at q.inactivity_ttl_ms ≡ false))
  owner_keeps_name now r q raw_token owner e {out} there owned done =
      let (keeps, _, kept, _) = register-inversion p now r q raw_token done in
      takeover p q.pane_token (p.sha256 owner) (within_ttl p now e.last_seen_at q.inactivity_ttl_ms)
        keeps
        (sym (preserve_owned_lem now q e owner)
          ∙ sym (preserves-owned now r q owner e there owned)
          ∙ kept)

  -- With no credential, the owner's name cannot be registered.
  pub unidentified_rejected :
      (now : ℕ) (r : SessionRegistry) (q : RegisterParams) (raw_token owner : String)
      (e : SessionEntry)
      → session_name_regex q.name ≡ true
      → Dict.get r.sessions q.name ≡ some e
      → e.pane_token_hash ≡ some (p.to_hex (p.sha256 owner))
      → q.pane_token ≡ none
      → register p now r q raw_token ≡ err invalid_pane_token_missing
  unidentified_rejected now r q raw_token owner e valid there owned absent =
      register-refused p now r q raw_token invalid_pane_token_missing valid (
        preserves-owned now r q owner e there owned
        ∙ preserve_owned_lem now q e owner
        ∙ missing p q.pane_token (p.sha256 owner) _ absent)

  -- The owner, or a caller with the same credential, always gets the name back with the mailbox and
  -- the time of the first registration that it had.
  pub owner_reregisters :
      (now : ℕ) (r : SessionRegistry) (q : RegisterParams) (raw_token owner : String)
      (e : SessionEntry)
      → session_name_regex q.name ≡ true
      → Dict.get r.sessions q.name ≡ some e
      → e.pane_token_hash ≡ some (p.to_hex (p.sha256 owner))
      → q.pane_token ≡ some owner
      → (out : RegisterResult × SessionRegistry) × (register p now r q raw_token ≡ ok out)
        × (Dict.get out.1.sessions q.name ≡ some out.0.entry)
        × (out.0.entry.unread_message_ids ≡ e.unread_message_ids)
        × (out.0.entry.registered_at ≡ e.registered_at)
        × (out.0.entry.pane_token_hash ≡ e.pane_token_hash)
        × (out.0.entry.token_hash ≡ p.to_hex (p.sha256 raw_token))
  unfolding store_entry
  owner_reregisters now r q raw_token owner e valid there owned same = (
    stored p now r q raw_token true,
    register-kept p now r q raw_token true valid (
        preserves-owned now r q owner e there owned
        ∙ preserve_owned_lem now q e owner
        ∙ matching p q.pane_token owner _ same),
    Dict.get-set_self r.sessions q.name _,
    rw there (unfold new_entry in refl),
    rw there (unfold new_entry in refl),
    rw there (unfold new_entry in ground (arith, same, owned)),
    rw there (unfold new_entry in refl),
  )

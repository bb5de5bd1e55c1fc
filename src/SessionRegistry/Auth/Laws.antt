-- ===== src/SessionRegistry/Auth/Laws.antt =====
-- Who a session token authenticates (`authenticate`, src/core/session-registry.ts).
use mathlib.Core.Option.{some-injective}
use agentic_mcp_teaming.Common.{
  ℕ, String, ◌≡◌, ◌≢◌, refl, sym, ◌∙◌, subst, Bool, true, false, Option, none, some, List, [], ◌∷◌,
  arith, str_eq, eq_iff, str_eq-eq-false, All, bytes_eq, bytes_eq-eq, bytes_eq_refl, Bool-cases,
  inl, inr,
}
use agentic_mcp_teaming.Dict.{Dict}
use agentic_mcp_teaming.Dict
use agentic_mcp_teaming.Platform.{Platform, PlatformLaws}
use agentic_mcp_teaming.SessionRegistry.{SessionEntry, SessionRegistry, clear_token_hashes}
use agentic_mcp_teaming.SessionRegistry.Register.{
  RegisterParams, RegisterResult, ok, register, compare_target, new_entry, store_entry,
}
use agentic_mcp_teaming.SessionRegistry.Register.Entries.{register-inversion}
use agentic_mcp_teaming.SessionRegistry.Register.Ownership.{compare_target-hash}
use agentic_mcp_teaming.SessionRegistry.Auth.{token_matches, last_match, authenticate}

module _ (p : Platform) (presented : List ℕ) where
  -- What holds of every entry that matches holds of the one that is found.
  last_match-All {ℓ} :
      (P : SessionEntry → Type ℓ) (es : List SessionEntry) (matched : Option SessionEntry)
      {e : SessionEntry}
      → ((x : SessionEntry) → matched ≡ some x → P x)
      → All (λ x. token_matches p presented x ≡ true → P x) es
      → last_match p presented matched es ≡ some e
      → P e
  unfolding last_match
  last_match-All P [] matched {e} start h found = start e found
  last_match-All P (x ∷ xs) matched {e} start h found =
      elim (Bool-cases (token_matches p presented x)) [
        | inl hit ↦
            last_match-All P xs (some x) (λ y q. subst P (some-injective _ _ q) (h.0 hit)) h.1
              (rw (hit, last_match) at found)
        | inr miss ↦ last_match-All P xs matched start h.1 (rw (miss, last_match) at found)
      ]

  last_match_none :
      (es : List SessionEntry) (matched : Option SessionEntry)
      → All (λ x. token_matches p presented x ≡ false) es
      → last_match p presented matched es ≡ matched
  unfolding last_match
  last_match_none [] matched h = refl
  last_match_none (x ∷ xs) matched h = rw h.0 (last_match_none xs matched h.1)

  -- If no entry matched before, the one that is set is found.
  last_match-set :
      (d : Dict SessionEntry) (k : String) (e : SessionEntry) (matched : Option SessionEntry)
      → All (λ x. token_matches p presented x ≡ false) (Dict.values d)
      → token_matches p presented e ≡ true
      → last_match p presented matched (Dict.values (Dict.set d k e)) ≡ some e
  unfolding last_match Dict.values Dict.set
  last_match-set [] k e matched h hit = rw (hit, last_match)
  last_match-set ((j, x) ∷ d) k e matched h hit = elim (Bool-cases (str_eq j k)) [
    | inl same ↦
        rw (same, Dict.set, Dict.values, last_match)
          (rw hit (last_match_none (Dict.values d) (some e) h.1))
    | inr other ↦
        rw (other, Dict.set, Dict.values, last_match)
          (rw h.0 (last_match-set d k e matched h.1 hit))
  ]

matching :
    (p : Platform) (presented : List ℕ) (x : SessionEntry)
    → token_matches p presented x ≡ true
    → (x.token_hash ≢ "") × (compare_target (p.from_hex x.token_hash) ≡ presented)
unfolding token_matches
matching p presented x h = elim (Bool-cases (str_eq x.token_hash "")) [
  | inl e ↦ absurd (ground arith)
  | inr e ↦ (
    λ q. ground (arith, eq_iff x.token_hash ""),
    sym (bytes_eq-eq presented (compare_target (p.from_hex x.token_hash)) (ground arith)),
  )
]

pub empty_never :
    (p : Platform) (presented : List ℕ) (x : SessionEntry)
    → token_matches p presented (record x { token_hash = "" }) ≡ false
unfolding token_matches
empty_never p presented x = ground arith

new_entry-token :
    (p : Platform) (now : ℕ) (q : RegisterParams) (raw_token : String)
    (existing : Option SessionEntry) (keeps : Bool)
    → (new_entry p now q raw_token existing keeps).token_hash ≡ p.to_hex (p.sha256 raw_token)
unfolding new_entry
new_entry-token p now q raw_token none keeps = refl
new_entry-token p now q raw_token (some e) true = refl
new_entry-token p now q raw_token (some e) false = refl

-- Whoever is authenticated holds a hash that is not empty and, where it is 32 bytes, is the hash of
-- the token; a hash of another length never matches a token whose hash is not zero.
pub authenticate_sound :
    (p : Platform) (r : SessionRegistry) (token : String) (e : SessionEntry)
    → authenticate p r token ≡ some e
    → (e.token_hash ≢ "") × (compare_target (p.from_hex e.token_hash) ≡ p.sha256 token)
unfolding authenticate
authenticate_sound p r token e found =
    last_match-All p (p.sha256 token) _ (Dict.values r.sessions) none (λ x q. cc)
      (every (Dict.values r.sessions)) found
  where
    every :
        (es : List SessionEntry)
        → All
            (λ x.
              token_matches p (p.sha256 token) x ≡ true
              → (x.token_hash ≢ "") × (compare_target (p.from_hex x.token_hash) ≡ p.sha256 token))
            es
    every [] = tt
    every (x ∷ xs) = (matching p (p.sha256 token) x, every xs)

-- After the tokens are wiped, no token authenticates.
pub cleared_rejects_all :
    (p : Platform) (r : SessionRegistry) (token : String)
    → authenticate p (clear_token_hashes r) token ≡ none
unfolding authenticate clear_token_hashes Dict.map_values
cleared_rejects_all p r token = last_match_none p (p.sha256 token) _ none (wiped r.sessions)
  where
    wiped :
        (d : Dict SessionEntry)
        → All
            (λ x. token_matches p (p.sha256 token) x ≡ false)
            (Dict.values (Dict.map_values (λ e. record e { token_hash = "" }) d))
    wiped [] = tt
    wiped ((k, x) ∷ d) = (empty_never p (p.sha256 token) x, wiped d)

module _ (p : Platform) (laws : PlatformLaws p) where
  -- An entry whose hash is that of a token matches exactly the tokens with that hash.
  token_matches-hash :
      (e : SessionEntry) (token : String) (presented : List ℕ)
      → e.token_hash ≡ p.to_hex (p.sha256 token)
      → token_matches p presented e ≡ bytes_eq presented (p.sha256 token)
  unfolding token_matches
  token_matches-hash e token presented h =
      rw
        (
          h,
          str_eq-eq-false (p.to_hex (p.sha256 token)) "" (laws.to_hex-ne-empty token),
          compare_target-hash p laws token,
        )
        (ground arith)

  -- The token that a registration hands out authenticates as the entry that it stored, if no stored
  -- hash was that of the token before.
  pub new_token_authenticates :
      (now : ℕ) (r : SessionRegistry) (q : RegisterParams) (raw_token : String)
      {out : RegisterResult × SessionRegistry}
      → All (λ e. token_matches p (p.sha256 raw_token) e ≡ false) (Dict.values r.sessions)
      → register p now r q raw_token ≡ ok out
      → authenticate p out.1 raw_token ≡ some out.0.entry
  unfolding authenticate store_entry
  new_token_authenticates now r q raw_token {out} unused done =
      let (keeps, _, _, eq) = register-inversion p now r q raw_token done in
      let entry = new_entry p now q raw_token (Dict.get r.sessions q.name) keeps in
      rw eq (
        last_match-set p (p.sha256 raw_token) r.sessions q.name entry none unused (
          token_matches-hash entry raw_token (p.sha256 raw_token)
            (new_entry-token p now q raw_token (Dict.get r.sessions q.name) keeps)
          ∙ bytes_eq_refl (p.sha256 raw_token)))

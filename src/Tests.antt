-- ===== src/Tests.antt =====
-- A small platform and small states, and, in the children, each theorem of the results applied to
-- them.
mod Texts
pub mod Ownership
pub mod Mailbox
pub mod Disk
pub mod Bus
pub mod Waking
pub mod Consistent
pub mod Reviews
pub mod Spawning
pub mod Phases
pub mod Implementing
pub mod Serving
pub mod Locking
use Texts.{size-dots}
unfoldable pub use Texts.{dots, size}
use agentic_mcp_teaming.Common.{
  ℕ, zero, suc, ◌-◌, String, ◌≡◌, ◌≢◌, ap, refl, none, some, List, [], ◌∷◌, arith, length, str_eq,
  eq_iff, true, false, Bool-cases, ◌⊎◌, inl, inr, subst,
}
use mathlib.Core.Option.{some-injective}
use agentic_mcp_teaming.Dict
use agentic_mcp_teaming.Patterns.{session_name_regex}
use agentic_mcp_teaming.SessionRegistry.Invariant.{IsValid, EntryOk}
use agentic_mcp_teaming.Platform.{Platform, PlatformLaws, Json, null}
use agentic_mcp_teaming.Message.{PeerMessage, chat}
use agentic_mcp_teaming.SessionRegistry.{SessionEntry, SessionRegistry}

abbrev pub bytes_of : ℕ → List ℕ
bytes_of n =
    n ∷ 0 ∷ 0 ∷ 0 ∷ 0 ∷ 0 ∷ 0 ∷ 0 ∷ 0 ∷ 0 ∷ 0 ∷ 0 ∷ 0 ∷ 0 ∷ 0 ∷ 0 ∷ 0 ∷ 0 ∷ 0 ∷ 0 ∷ 0 ∷ 0 ∷ 0 ∷ 0
    ∷ 0 ∷ 0 ∷ 0 ∷ 0 ∷ 0 ∷ 0 ∷ 0 ∷ 0 ∷ []

abbrev pub pred : ℕ → ℕ
pred zero = 0
pred (suc n) = n

abbrev pub first_byte : List ℕ → ℕ
first_byte [] = 0
first_byte (n ∷ ns) = n

-- The hash of a text is its length, in 32 bytes; a time is a text of as many characters.
unfoldable pub toy_platform : Json → Platform
unfolding dots size
toy_platform j = record {
  sha256 = λ s. bytes_of (size s);
  to_hex = λ ns. dots (suc (first_byte ns));
  from_hex = λ s. bytes_of (pred (size s));
  date_parse = λ s. some (size s);
  to_iso = dots;
  stringify = λ _. "json";
  json_parse = λ _. some j;
}

zero-ne-suc : {n : ℕ} → suc n ≢ 0
zero-ne-suc h = omega arith

pub toy_laws : (j : Json) → PlatformLaws (toy_platform j)
unfolding toy_platform dots size
toy_laws j = record {
  length-sha256 = λ s. refl;
  from_hex-to_hex = λ s. ap bytes_of (size-dots (size s));
  to_hex-ne-empty = λ s q. absurd (zero-ne-suc (ap size q));
  date_parse-to_iso = λ t. ap some (size-dots t);
}

abbrev pub toy : Platform
toy = toy_platform null

abbrev pub owned_by : String → String → List String → SessionEntry
owned_by name owner ids = record {
  name = name;
  token_hash = toy.to_hex (toy.sha256 name);
  pane_token_hash = some (toy.to_hex (toy.sha256 owner));
  registered_at = dots 5;
  last_seen_at = dots 5;
  unread_message_ids = ids;
  auto_wake_key = some "k";
  cmux_surface_id = none;
  cmux_workspace_id = none;
  wake_target = none;
}

-- The token of a session is its name, and its owner's credential is `secret`.
abbrev pub two_sessions : SessionRegistry
two_sessions = record {
  sessions =
      ("ann", owned_by "ann" "secret" ("m1" ∷ "m2" ∷ "lost" ∷ []))
      ∷ ("robert", owned_by "robert" "other-one" [])
      ∷ [];
  wake_states = [];
}

abbrev pub note_to : String → String → ℕ → PeerMessage
note_to id to time = record {
  message_id = id;
  from = "robert";
  to = to;
  kind = chat;
  body = null;
  reply_to = none;
  timestamp = dots time;
}

pub two_sessions-IsValid : IsValid two_sessions
unfolding Dict.get session_name_regex
two_sessions-IsValid = record {
  at = λ key e h. go key e (Bool-cases (str_eq "ann" key)) (Bool-cases (str_eq "robert" key)) h;
}
  where
    ann_ok : EntryOk "ann" (owned_by "ann" "secret" ("m1" ∷ "m2" ∷ "lost" ∷ []))
    ann_ok = record { key_eq = refl; named = refl; bounded = omega arith; target = refl }

    robert_ok : EntryOk "robert" (owned_by "robert" "other-one" [])
    robert_ok = record { key_eq = refl; named = refl; bounded = omega arith; target = refl }

    go :
        (key : String) (e : SessionEntry)
        → (str_eq "ann" key ≡ true) ⊎ (str_eq "ann" key ≡ false)
        → (str_eq "robert" key ≡ true) ⊎ (str_eq "robert" key ≡ false)
        → Dict.get two_sessions.sessions key ≡ some e
        → EntryOk key e
    go key e (inl a) c h =
        subst (λ k. EntryOk k e) ((eq_iff "ann" key).0 a)
          (subst (EntryOk "ann") (some-injective _ _ (rw (a, Dict.get) at h)) ann_ok)
    go key e (inr a) (inl b) h =
        subst (λ k. EntryOk k e) ((eq_iff "robert" key).0 b)
          (subst (EntryOk "robert") (some-injective _ _ (rw (a, b, Dict.get) at h)) robert_ok)
    go key e (inr a) (inr b) h = absurd (ground (arith, a, b, h))

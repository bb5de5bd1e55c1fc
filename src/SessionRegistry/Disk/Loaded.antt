-- ===== src/SessionRegistry/Disk/Loaded.antt =====
-- What the guards of `load` (src/core/session-registry.ts) ensure of each entry, whatever the file.
use mathlib.Core.Option.{some-injective}
use agentic_mcp_teaming.Common.{
  String, ◌≡◌, refl, inl, inr, true, Option, none, some, [], arith, str_eq, eq_iff, Option-cases,
  Bool-cases, subst,
}
use agentic_mcp_teaming.Dict.{Dict}
use agentic_mcp_teaming.Dict
use agentic_mcp_teaming.Platform.{Platform, Json, object, Members, end, member}
use agentic_mcp_teaming.Message.{get_member, as_text}
use agentic_mcp_teaming.Patterns.{session_name_regex}
use agentic_mcp_teaming.SessionRegistry.{SessionEntry, empty_registry}
use agentic_mcp_teaming.SessionRegistry.Disk.{
  load_entry, load_members, load, add_loaded, as_array, cleaned, sessions_of, with_sessions,
  load_parsed,
}

-- An entry with the name that it is stored under.
pub record LoadOk (key : String) (e : SessionEntry) : Type 0 where
  pub key_eq : e.name ≡ key
  pub named : session_name_regex key ≡ true
  pub target : e.wake_target ≡ e.cmux_surface_id

load_entry-LoadOk :
    (key : String) (j : Json) (e : SessionEntry) → load_entry key j ≡ some e → LoadOk key e
unfolding load_entry
load_entry-LoadOk key (object ms) e h = elim (Bool-cases (session_name_regex key)) [
  | inr bad ↦ absurd (ground (arith, bad, h))
  | inl ok ↦ elim (Option-cases (as_text (get_member ms "name"))) [
    | inl a ↦ absurd (ground (arith, ok, a, h))
    | inr (name, a) ↦ elim (Option-cases (as_text (get_member ms "registeredAt"))) [
      | inl b ↦ absurd (ground (arith, ok, a, b, h))
      | inr (t, b) ↦ elim (Option-cases (as_text (get_member ms "lastSeenAt"))) [
        | inl c ↦ absurd (ground (arith, ok, a, b, c, h))
        | inr (l, c) ↦ elim (Option-cases (as_array (get_member ms "unreadMessageIds"))) [
          | inl d ↦ absurd (ground (arith, ok, a, b, c, d, h))
          | inr (ids, d) ↦ elim (Bool-cases (str_eq name key)) [
            | inr other ↦ absurd (ground (arith, ok, a, b, c, d, other, h))
            | inl same ↦
                subst (LoadOk key)
                  (some-injective (cleaned name t l ids ms) e (rw (ok, a, b, c, d, same) at h))
                  (record { key_eq = (eq_iff name key).0 same; named = ok; target = refl })
          ]
        ]
      ]
    ]
  ]
]
load_entry-LoadOk key j e h = absurd (ground (arith, h))

-- Each entry of a dictionary is as `load` leaves it.
record AllLoaded (d : Dict SessionEntry) : Type 0 where
  at : (key : String) (e : SessionEntry) → Dict.get d key ≡ some e → LoadOk key e

add_loaded-AllLoaded :
    (d : Dict SessionEntry) (key : String) (o : Option SessionEntry)
    → ((e : SessionEntry) → o ≡ some e → LoadOk key e)
    → AllLoaded d
    → AllLoaded (add_loaded d key o)
add_loaded-AllLoaded d key none ok h = h
add_loaded-AllLoaded d key (some e) ok h = record {
  at = λ j x there. ground (arith, Dict.get-set d key e j, eq_iff key j, h.at j x, ok e, there);
}

load_members-AllLoaded :
    (d : Dict SessionEntry) (ms : Members) → AllLoaded d → AllLoaded (load_members d ms)
unfolding load_members
load_members-AllLoaded d end h = h
load_members-AllLoaded d (member key j ms) h =
    load_members-AllLoaded (add_loaded d key (load_entry key j)) ms
      (add_loaded-AllLoaded d key (load_entry key j) (load_entry-LoadOk key j) h)

no_entries : AllLoaded []
unfolding Dict.get
no_entries = record { at = λ key e there. cc }

sessions-AllLoaded : (o : Option Members) → AllLoaded (with_sessions empty_registry o).sessions
sessions-AllLoaded none = no_entries
sessions-AllLoaded (some entries) = load_members-AllLoaded [] entries no_entries

parsed-AllLoaded : (o : Option Json) → AllLoaded (load_parsed empty_registry o).sessions
parsed-AllLoaded (some (object ms)) = sessions-AllLoaded (sessions_of (get_member ms "sessions"))
parsed-AllLoaded o = no_entries

pub load-LoadOk :
    (p : Platform) (file : Option String) (key : String) (e : SessionEntry)
    → Dict.get (load p file empty_registry).sessions key ≡ some e
    → LoadOk key e
unfolding load
load-LoadOk p none key e there = no_entries.at key e there
load-LoadOk p (some raw) key e there = (parsed-AllLoaded (p.json_parse raw)).at key e there

-- ===== src/SessionRegistry/Disk/Reconciled.antt =====
-- What `reconcile` leaves in the mailboxes (src/core/session-registry.ts).
use mathlib.Core.Option
use agentic_mcp_teaming.Common.{
  ℕ, ◌+◌, String, ◌≡◌, refl, ap, ◌∙◌, inl, inr, Bool, true, some, List, [], ◌∷◌, arith, length,
  keep, All, All-keep, subst, Option-cases, if◌then◌else◌, eq_iff,
}
use agentic_mcp_teaming.Dict.{Dict}
use agentic_mcp_teaming.Dict
use agentic_mcp_teaming.Message.{PeerMessage}
use agentic_mcp_teaming.SessionRegistry.{SessionEntry, SessionRegistry}
use agentic_mcp_teaming.SessionRegistry.Disk.{
  Summary, Verdict, delivered, orphaned, misrouted, verdict_of, note, is_delivered, reconcile_ids,
  reconcile_entries, reconcile, no_drops,
}

-- An id that the filter keeps: the log has it, and it is addressed to the session.
abbrev pub kept_by : Dict PeerMessage → String → String → Bool
kept_by lookup name id = is_delivered (verdict_of name (Dict.get lookup id))

reconcile_ids-0 :
    (lookup : Dict PeerMessage) (name : String) (ids : List String) (s : Summary)
    → (reconcile_ids lookup name ids s).0 ≡ keep (kept_by lookup name) ids
unfolding reconcile_ids keep
reconcile_ids-0 lookup name [] s = refl
reconcile_ids-0 lookup name (id ∷ ids) s =
    ap (λ xs. if kept_by lookup name id then id ∷ xs else xs)
      (reconcile_ids-0 lookup name ids (note (verdict_of name (Dict.get lookup id)) id s))

abbrev dropped : Summary → ℕ
dropped s = s.orphaned_count + s.misrouted_count

-- Each id that goes is counted once.
reconcile_ids_counts :
    (lookup : Dict PeerMessage) (name : String) (ids : List String) (s : Summary)
    → dropped (reconcile_ids lookup name ids s).1 + length (reconcile_ids lookup name ids s).0
      ≡ dropped s + length ids
unfolding reconcile_ids
reconcile_ids_counts lookup name [] s = refl
reconcile_ids_counts lookup name (id ∷ ids) s =
    one (verdict_of name (Dict.get lookup id)) (reconcile_ids_counts lookup name ids)
  where
    one :
        (v : Verdict)
        → ((s' : Summary)
            → dropped (reconcile_ids lookup name ids s').1
                + length (reconcile_ids lookup name ids s').0
              ≡ dropped s' + length ids)
        → let rest = reconcile_ids lookup name ids (note v id s) in
          dropped rest.1 + length (if is_delivered v then id ∷ rest.0 else rest.0)
          ≡ dropped s + length (id ∷ ids)
    one delivered later = omega (arith, later s)
    one orphaned later = omega (arith, later (note orphaned id s))
    one misrouted later = omega (arith, later (note misrouted id s))

abbrev pub reconciled : Dict PeerMessage → SessionEntry → SessionEntry
reconciled lookup e = record e {
  unread_message_ids = keep (kept_by lookup e.name) e.unread_message_ids;
}

reconcile_entries-0 :
    (lookup : Dict PeerMessage) (d : Dict SessionEntry) (s : Summary)
    → (reconcile_entries lookup d s).0 ≡ Dict.map_values (reconciled lookup) d
unfolding reconcile_entries Dict.map_values
reconcile_entries-0 lookup [] s = refl
reconcile_entries-0 lookup ((k, e) ∷ d) s =
    rw
      (
        reconcile_ids-0 lookup e.name e.unread_message_ids s,
        reconcile_entries-0 lookup d (reconcile_ids lookup e.name e.unread_message_ids s).1,
      )
      refl

abbrev pub unread_total : Dict SessionEntry → ℕ
unread_total [] = 0
unread_total ((k, e) ∷ d) = length e.unread_message_ids + unread_total d

reconcile_entries_counts :
    (lookup : Dict PeerMessage) (d : Dict SessionEntry) (s : Summary)
    → dropped (reconcile_entries lookup d s).1 + unread_total (reconcile_entries lookup d s).0
      ≡ dropped s + unread_total d
unfolding reconcile_entries
reconcile_entries_counts lookup [] s = refl
reconcile_entries_counts lookup ((k, e) ∷ d) s = omega (
  arith,
  reconcile_ids_counts lookup e.name e.unread_message_ids s,
  reconcile_entries_counts lookup d (reconcile_ids lookup e.name e.unread_message_ids s).1,
)

-- The log has the message, and it is addressed to the session.
abbrev pub AddressedTo : Dict PeerMessage → String → String → Type 0
AddressedTo lookup name id = (m : PeerMessage) × (Dict.get lookup id ≡ some m) × (m.to ≡ name)

module _ (r : SessionRegistry) (lookup : Dict PeerMessage) where
  pub reconcile_lem :
      (reconcile r lookup).1.sessions ≡ Dict.map_values (reconciled lookup) r.sessions
  unfolding reconcile
  reconcile_lem = reconcile_entries-0 lookup r.sessions no_drops

  -- The numbers that are reported are exact: the unread ids before are those that are left, the
  -- orphaned and the misrouted ones.
  pub reconcile_counts :
      (reconcile r lookup).0.orphaned_count
        + (reconcile r lookup).0.misrouted_count
        + unread_total (reconcile r lookup).1.sessions
      ≡ unread_total r.sessions
  unfolding reconcile
  reconcile_counts = omega (arith, reconcile_entries_counts lookup r.sessions no_drops)

  kept-AddressedTo : (name id : String) → kept_by lookup name id ≡ true → AddressedTo lookup name id
  kept-AddressedTo name id h = elim (Option-cases (Dict.get lookup id)) [
    | inl e ↦ absurd (ground (arith, e, h))
    | inr (m, e) ↦ (m, e, ground (arith, e, h, eq_iff m.to name))
  ]

  All-kept :
      (name : String) (ids : List String)
      → All (λ id. kept_by lookup name id ≡ true) ids
      → All (AddressedTo lookup name) ids
  All-kept name [] h = tt
  All-kept name (id ∷ ids) h = (kept-AddressedTo name id h.0, All-kept name ids h.1)

  -- After the reconciliation every unread id of a session is a message of the log that is addressed
  -- to that session.
  pub reconcile_sound :
      (name : String) (e : SessionEntry)
      → Dict.get (reconcile r lookup).1.sessions name ≡ some e
      → All (AddressedTo lookup e.name) e.unread_message_ids
  reconcile_sound name e there = elim (Option-cases (Dict.get r.sessions name)) [
    | inl absent ↦ absurd (ground (arith, found, absent, there))
    | inr (x, before) ↦
        let same : reconciled lookup x ≡ e = ground (arith, found, before, there) in
        subst (λ y. All (AddressedTo lookup y.name) y.unread_message_ids) same
          (All-kept x.name _ (All-keep (kept_by lookup x.name) x.unread_message_ids))
  ]
    where
      found :
          Dict.get (reconcile r lookup).1.sessions name
          ≡ Option.map (reconciled lookup) (Dict.get r.sessions name)
      found =
          ap (λ d. Dict.get d name) reconcile_lem
          ∙ Dict.get-map_values (reconciled lookup) r.sessions name

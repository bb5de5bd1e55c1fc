-- ===== src/SessionRegistry/Unread.antt =====
-- The mailboxes of the sessions as `snapshotUnread` shows them (src/core/session-registry.ts), and
-- what the other operations do to them.
use mathlib.Core.Option
use agentic_mcp_teaming.Common.{
  ℕ, String, ◌≡◌, refl, ◌∙◌, inl, inr, true, false, none, some, List, [], ◌∷◌, ◌++◌, arith, str_eq,
  eq_iff, if◌then◌else◌, Option-cases, Bool-cases, subst,
}
use agentic_mcp_teaming.Dict.{Dict}
use agentic_mcp_teaming.Dict
use agentic_mcp_teaming.Message.{PeerMessage}
use agentic_mcp_teaming.SessionRegistry.Drain.{drain_unread, remaining, taken_of}
use agentic_mcp_teaming.Platform.{Platform}
use agentic_mcp_teaming.SessionRegistry.{
  SessionEntry, SessionRegistry, mutate, touch, can_add_unread, add_unread, push_unread, is_full,
  snapshot_unread, restore_unread,
}

get-mutate :
    (r : SessionRegistry) (name : String) (f : SessionEntry → SessionEntry) (j : String)
    → Dict.get (mutate r name f).sessions j
      ≡ (if str_eq name j then Option.map f (Dict.get r.sessions j) else Dict.get r.sessions j)
unfolding mutate
get-mutate r name f j = elim (Option-cases (Dict.get r.sessions name)) [
  | inl e ↦ rw (e, mutate) (ground (arith, eq_iff name j, e))
  | inr (x, e) ↦
      rw (e, mutate) (ground (arith, Dict.get-set r.sessions name (f x) j, eq_iff name j, e))
]

-- Every mailbox is the same.
abbrev pub Quiet : SessionRegistry → SessionRegistry → Type 0
Quiet r r' = (j : String) → snapshot_unread r' j ≡ snapshot_unread r j

-- One mailbox, if it is there, is changed by a function, and the others are the same.
abbrev pub Changed :
    String → (List String → List String) → SessionRegistry → SessionRegistry → Type 0
Changed name g r r' =
    (j : String)
    → snapshot_unread r' j
      ≡ (if str_eq name j then Option.map g (snapshot_unread r j) else snapshot_unread r j)

-- One mailbox has one more id at its end.
abbrev pub Added : String → String → SessionRegistry → SessionRegistry → Type 0
Added to id = Changed to (λ ids. ids ++ id ∷ [])

mutate-unread :
    (r : SessionRegistry) (name : String) (f : SessionEntry → SessionEntry)
    (g : List String → List String)
    → ((e : SessionEntry) → (f e).unread_message_ids ≡ g e.unread_message_ids)
    → (j : String)
    → snapshot_unread (mutate r name f) j
      ≡ (if str_eq name j then Option.map g (snapshot_unread r j) else snapshot_unread r j)
unfolding snapshot_unread
mutate-unread r name f g same j = elim (Option-cases (Dict.get r.sessions j)) [
  | inl e ↦ ground (arith, get-mutate r name f j, e)
  | inr (x, e) ↦ ground (arith, get-mutate r name f j, e, same x)
]

pub touch-Quiet :
    (p : Platform) (now : ℕ) (r : SessionRegistry) (name : String) → Quiet r (touch p now r name)
unfolding touch
touch-Quiet p now r name j =
    mutate-unread r name (λ e. record e { last_seen_at = p.to_iso now }) (λ ids. ids) (λ e. refl) j
    ∙ ground (arith, Option-cases (snapshot_unread r j))

-- An id is added to a mailbox that has room for it.
pub add_unread-Added :
    (r : SessionRegistry) (name id : String)
    → can_add_unread r name ≡ true
    → Added name id r (add_unread r name id).1
unfolding can_add_unread add_unread
add_unread-Added r name id room j = elim (Option-cases (Dict.get r.sessions name)) [
  | inl e ↦ absurd (ground (arith, e, room))
  | inr (x, e) ↦
      let roomy : is_full x ≡ false = ground (arith, e, room) in
      rw (e, add_unread)
        (rw roomy (mutate-unread r name (push_unread id) (λ ids. ids ++ id ∷ []) (λ y. refl) j))
]

-- Restoring a mailbox undoes any change to it.
pub restore_unread-Quiet :
    (r r' : SessionRegistry) (name : String) (g : List String → List String) (ids : List String)
    → snapshot_unread r name ≡ some ids
    → Changed name g r r'
    → Quiet r (restore_unread r' name ids)
unfolding restore_unread
restore_unread-Quiet r r' name g ids before changed j =
    mutate-unread r' name (λ e. record e { unread_message_ids = ids }) (λ xs. ids) (λ e. refl) j
    ∙ elim (Bool-cases (str_eq name j)) [
      | inl same ↦ ground (arith, changed j, eq_iff name j, before)
      | inr other ↦ ground (arith, changed j)
    ]

-- With no such mailbox there was no change.
pub Changed-none :
    (r r' : SessionRegistry) (name : String) (g : List String → List String)
    → snapshot_unread r name ≡ none
    → Changed name g r r'
    → Quiet r r'
Changed-none r r' name g absent changed j = elim (Bool-cases (str_eq name j)) [
  | inl same ↦ ground (arith, changed j, eq_iff name j, absent)
  | inr other ↦ ground (arith, changed j)
]

-- A drain leaves the ids that it did not take in the mailbox.
pub drain_unread-Changed :
    (p : Platform) (r : SessionRegistry) (name : String) (lookup : Dict PeerMessage)
    (wrap_envelope : PeerMessage → String) (max_bytes : ℕ)
    → Changed name
        (λ ids. remaining lookup (taken_of p lookup wrap_envelope max_bytes ids).drained ids)
        r
        (drain_unread p r name lookup wrap_envelope max_bytes).1
unfolding drain_unread snapshot_unread
drain_unread-Changed p r name lookup wrap_envelope max_bytes j =
    elim (Option-cases (Dict.get r.sessions name)) [
      | inl e ↦ rw (e, drain_unread) (ground (arith, eq_iff name j, e))
      | inr (x, e) ↦
          let left =
            remaining lookup
              (taken_of p lookup wrap_envelope max_bytes x.unread_message_ids).drained
              x.unread_message_ids in
          rw (e, drain_unread)
            (elim (Bool-cases (str_eq name j)) [
              | inl same ↦
                  let here : Dict.get r.sessions j ≡ some x =
                    subst (λ k. Dict.get r.sessions k ≡ some x) ((eq_iff name j).0 same) e in
                  rw
                    (
                      Dict.get-set r.sessions name (record x { unread_message_ids = left }) j,
                      same,
                      here,
                    )
                    refl
              | inr other ↦
                  rw
                    (Dict.get-set r.sessions name (record x { unread_message_ids = left }) j, other)
                    refl
            ])
    ]

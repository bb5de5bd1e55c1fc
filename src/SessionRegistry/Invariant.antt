-- ===== src/SessionRegistry/Invariant.antt =====
-- The invariant of SessionRegistry (src/core/session-registry.ts), operation by operation.
use agentic_mcp_teaming.Common.{
  ℕ, ◌≤◌, String, ◌≡◌, refl, Bool, true, false, Option, none, some, List, [], ◌∷◌, arith, length,
  length-append, length-keep-le, eq_iff, Bool-cases, Option-cases, inl, inr,
}
use native.Mathlib.Nat.{le_trans}
use agentic_mcp_teaming.Dict.{Dict}
use agentic_mcp_teaming.Dict
use agentic_mcp_teaming.Platform.{Platform}
use agentic_mcp_teaming.Patterns.{session_name_regex}
use agentic_mcp_teaming.SessionRegistry.{
  SessionEntry, SessionRegistry, peer_bus_max_unread, mutate, touch, is_full, push_unread,
  add_unread, restore_unread,
}
use agentic_mcp_teaming.SessionRegistry.Register.{
  RegisterParams, RegisterResult, ok, register, new_entry, store_entry,
}
use agentic_mcp_teaming.Message.{PeerMessage}
use agentic_mcp_teaming.SessionRegistry.Drain.{drain_unread, stays, taken_of}
use agentic_mcp_teaming.SessionRegistry.Register.Entries.{register-inversion}
use agentic_mcp_teaming.SessionRegistry.Rollback.{snapshot_entry, restore_entry}

-- An entry stands under its own name, which is a valid session name; its mailbox is within the
-- limit, and its wake target is its surface.
pub record EntryOk (key : String) (e : SessionEntry) : Type 0 where
  pub key_eq : e.name ≡ key
  pub named : session_name_regex key ≡ true
  pub bounded : length e.unread_message_ids ≤ peer_bus_max_unread
  pub target : e.wake_target ≡ e.cmux_surface_id

pub record IsValid (r : SessionRegistry) : Type 0 where
  pub at : (key : String) (e : SessionEntry) → Dict.get r.sessions key ≡ some e → EntryOk key e

pub set-IsValid :
    (r : SessionRegistry) (key : String) (e : SessionEntry)
    → IsValid r
    → EntryOk key e
    → IsValid (record r { sessions = Dict.set r.sessions key e })
set-IsValid r key e v o = record {
  at = λ j x h. ground (arith, Dict.get-set r.sessions key e j, eq_iff key j, v.at j x, o);
}

pub mutate-IsValid :
    (r : SessionRegistry) (name : String) (f : SessionEntry → SessionEntry)
    → IsValid r
    → ((e : SessionEntry) → Dict.get r.sessions name ≡ some e → EntryOk name e → EntryOk name (f e))
    → IsValid (mutate r name f)
unfolding mutate
mutate-IsValid r name f v keep = elim (Option-cases (Dict.get r.sessions name)) [
  | inl e ↦ rw (e, mutate) v
  | inr (x, e) ↦ rw (e, mutate) (set-IsValid r name (f x) v (keep x e (v.at name x e)))
]

pub touch-IsValid :
    (p : Platform) (now : ℕ) (r : SessionRegistry) (name : String)
    → IsValid r
    → IsValid (touch p now r name)
unfolding touch
touch-IsValid p now r name v = mutate-IsValid r name _ v (λ e h o. ground (arith, o))

pub restore_unread-IsValid :
    (r : SessionRegistry) (name : String) (ids : List String)
    → IsValid r
    → length ids ≤ peer_bus_max_unread
    → IsValid (restore_unread r name ids)
unfolding restore_unread
restore_unread-IsValid r name ids v fits = mutate-IsValid r name _ v (λ e h o. ground (arith, o))

pub add_unread-IsValid :
    (r : SessionRegistry) (name id : String) → IsValid r → IsValid (add_unread r name id).1
unfolding add_unread
add_unread-IsValid r name id v = elim (Option-cases (Dict.get r.sessions name)) [
  | inl e ↦ rw (e, add_unread) v
  | inr (x, e) ↦ elim (Bool-cases (is_full x)) [
    | inl full ↦ rw (e, add_unread) (rw full v)
    | inr room ↦
        rw (e, add_unread)
          (rw room (
            mutate-IsValid r name (push_unread id) v
              (λ y h o. ground (arith, o, length-append y.unread_message_ids (id ∷ [])))))
  ]
]

new_entry-EntryOk :
    (p : Platform) (now : ℕ) (q : RegisterParams) (raw_token : String)
    (existing : Option SessionEntry) (keeps : Bool)
    → session_name_regex q.name ≡ true
    → ((e : SessionEntry) → existing ≡ some e → length e.unread_message_ids ≤ peer_bus_max_unread)
    → EntryOk q.name (new_entry p now q raw_token existing keeps)
unfolding new_entry
new_entry-EntryOk p now q raw_token none keeps valid room = record {
  key_eq = refl;
  named = valid;
  bounded = omega arith;
  target = refl;
}
new_entry-EntryOk p now q raw_token (some e) true valid room = record {
  key_eq = refl;
  named = valid;
  bounded = room e refl;
  target = refl;
}
new_entry-EntryOk p now q raw_token (some e) false valid room = record {
  key_eq = refl;
  named = valid;
  bounded = omega arith;
  target = refl;
}

pub store_entry-IsValid :
    (r : SessionRegistry) (name : String) (e : SessionEntry)
    → IsValid r
    → EntryOk name e
    → IsValid (store_entry r name e)
unfolding store_entry
store_entry-IsValid r name e v o = record { at = (set-IsValid r name e v o).at }

-- A successful registration keeps the invariant.
pub register-IsValid :
    (p : Platform) (now : ℕ) (r : SessionRegistry) (q : RegisterParams) (raw_token : String)
    {out : RegisterResult × SessionRegistry}
    → IsValid r
    → register p now r q raw_token ≡ ok out
    → IsValid out.1
register-IsValid p now r q raw_token {out} v h =
    let (keeps, valid, _, eq) = register-inversion p now r q raw_token h in
    let o =
      new_entry-EntryOk p now q raw_token (Dict.get r.sessions q.name) keeps valid
        (λ e there. (v.at q.name e there).bounded) in
    rw eq (store_entry-IsValid r q.name _ v o)

-- Restoring the snapshot of a session after any change to the sessions that kept the invariant.
pub restore_entry-IsValid :
    (r r' : SessionRegistry) (name : String)
    → IsValid r
    → IsValid r'
    → IsValid (restore_entry r' name (snapshot_entry r name))
unfolding restore_entry snapshot_entry
restore_entry-IsValid r r' name v v' = elim (Option-cases (Dict.get r.sessions name)) [
  | inl e ↦
      rw (e, snapshot_entry, restore_entry)
        (record { at = λ j x h. v'.at j x (ground (arith, Dict.get-delete r'.sessions name j)) })
  | inr (x, e) ↦
      let o = v.at name x e in
      rw (e, snapshot_entry, restore_entry)
        (record {
          at =
              (set-IsValid r' name (record x { wake_target = x.cmux_surface_id }) v'
                (record {
                  key_eq = o.key_eq;
                  named = o.named;
                  bounded = o.bounded;
                  target = refl;
                })).at;
        })
]

pub drain_unread-IsValid :
    (p : Platform) (r : SessionRegistry) (name : String) (lookup : Dict PeerMessage)
    (wrap_envelope : PeerMessage → String) (max_bytes : ℕ)
    → IsValid r
    → IsValid (drain_unread p r name lookup wrap_envelope max_bytes).1
unfolding drain_unread
drain_unread-IsValid p r name lookup wrap_envelope max_bytes v =
    elim (Option-cases (Dict.get r.sessions name)) [
      | inl e ↦ rw (e, drain_unread) v
      | inr (x, e) ↦
          let o = v.at name x e in
          let t = taken_of p lookup wrap_envelope max_bytes x.unread_message_ids in
          let fits = length-keep-le (stays lookup t.drained) x.unread_message_ids in
          rw (e, drain_unread)
            (record {
              at =
                  (set-IsValid r name _ v (record {
                    key_eq = o.key_eq;
                    named = o.named;
                    bounded = le_trans fits o.bounded;
                    target = o.target;
                  })).at;
            })
    ]

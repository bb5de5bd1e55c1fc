-- ===== src/SessionRegistry/Rollback/Laws.antt =====
-- What `restoreEntry` brings back after `register` (src/core/session-registry.ts).
use agentic_mcp_teaming.Common.{ℕ, String, ◌≡◌, ap, ◌∙◌, inl, inr, none, some, Option-cases}
use agentic_mcp_teaming.Dict
use agentic_mcp_teaming.Platform.{Platform}
use agentic_mcp_teaming.SessionRegistry.{SessionEntry, SessionRegistry, fresh_wake_state}
use agentic_mcp_teaming.SessionRegistry.Register.{
  RegisterParams, RegisterResult, ok, register, store_entry,
}
use agentic_mcp_teaming.SessionRegistry.Register.Entries.{register-inversion}
use agentic_mcp_teaming.SessionRegistry.Rollback.{snapshot_entry, restore_entry}
use agentic_mcp_teaming.SessionRegistry.Invariant.{IsValid}

-- Any entry stored under a name is undone by restoring the snapshot taken before.
restore_entry-store_entry :
    (r : SessionRegistry) (name : String) (entry : SessionEntry)
    → IsValid r
    → (restore_entry (store_entry r name entry) name (snapshot_entry r name)).sessions ≡ r.sessions
unfolding restore_entry snapshot_entry store_entry
restore_entry-store_entry r name entry v = elim (Option-cases (Dict.get r.sessions name)) [
  | inl e ↦ rw (e, snapshot_entry, restore_entry) (Dict.delete-set_fresh r.sessions name entry e)
  | inr (x, e) ↦
      let same : x ≡ record x { wake_target = x.cmux_surface_id } =
        ap (λ t. record x { wake_target = t }) (v.at name x e).target in
      rw (e, snapshot_entry, restore_entry)
        (Dict.set-set r.sessions name entry _ ∙ Dict.set_same r.sessions name _ (e ∙ ap some same))
]

-- Undoing a registration in a valid registry gives back the sessions as they were, whoever
-- registered.
pub restore_undoes_register :
    (p : Platform) (now : ℕ) (r : SessionRegistry) (q : RegisterParams) (raw_token : String)
    {out : RegisterResult × SessionRegistry}
    → IsValid r
    → register p now r q raw_token ≡ ok out
    → (restore_entry out.1 q.name (snapshot_entry r q.name)).sessions ≡ r.sessions
restore_undoes_register p now r q raw_token {out} v done =
    let (keeps, _, _, eq) = register-inversion p now r q raw_token done in
    rw eq (restore_entry-store_entry r q.name _ v)

-- For a name that was free, the wake states come back too.
pub restore_undoes_fresh :
    (p : Platform) (now : ℕ) (r : SessionRegistry) (q : RegisterParams) (raw_token : String)
    {out : RegisterResult × SessionRegistry}
    → Dict.get r.sessions q.name ≡ none
    → Dict.get r.wake_states q.name ≡ none
    → register p now r q raw_token ≡ ok out
    → restore_entry out.1 q.name (snapshot_entry r q.name) ≡ r
unfolding restore_entry snapshot_entry store_entry
restore_undoes_fresh p now r q raw_token {out} free unseen done =
    let (keeps, _, _, eq) = register-inversion p now r q raw_token done in
    rw eq (
      rw (free, snapshot_entry, restore_entry)
        (rw (
          Dict.delete-set_fresh r.sessions q.name _ free,
          Dict.delete-set_fresh r.wake_states q.name _ unseen,
        )))

-- For a name that was taken, its wake state is a fresh one after the rollback: the debounce window
-- that it had is lost.
pub restore_loses_window :
    (p : Platform) (now : ℕ) (r : SessionRegistry) (q : RegisterParams) (raw_token : String)
    (e : SessionEntry) {out : RegisterResult × SessionRegistry}
    → Dict.get r.sessions q.name ≡ some e
    → register p now r q raw_token ≡ ok out
    → Dict.get (restore_entry out.1 q.name (snapshot_entry r q.name)).wake_states q.name
      ≡ some fresh_wake_state
unfolding restore_entry snapshot_entry store_entry
restore_loses_window p now r q raw_token e {out} there done =
    let (keeps, _, _, eq) = register-inversion p now r q raw_token done in
    rw eq (
      rw (there, snapshot_entry, restore_entry)
        (Dict.get-set_self r.wake_states q.name fresh_wake_state))

-- ===== src/PeerBus/Register/Linked.antt =====
-- `registerSessionTool` keeps the mailboxes linked to the log (src/server/tools/peer-bus.ts).
use agentic_mcp_teaming.Common.{
  ℕ, String, ◌≡◌, refl, sym, ap, ◌∙◌, ◌⊎◌, inl, inr, Bool, true, false, Option, none, some, List,
  [], arith, All, str_eq, eq_iff, subst, Bool-cases,
}
use agentic_mcp_teaming.Dict
use agentic_mcp_teaming.Platform.{Platform}
use agentic_mcp_teaming.Message.{load_all}
use agentic_mcp_teaming.SessionRegistry.{SessionEntry, SessionRegistry, snapshot_unread}
use agentic_mcp_teaming.SessionRegistry.Register.{
  RegisterParams, RegisterResult, register, ok, new_entry, store_entry,
}
use agentic_mcp_teaming.SessionRegistry.Register.Entries.{register-inversion}
use agentic_mcp_teaming.SessionRegistry.Rollback.{snapshot_entry}
use agentic_mcp_teaming.SessionRegistry.Invariant.{IsValid}
use agentic_mcp_teaming.SessionRegistry.Disk.Reconciled.{AddressedTo}
use agentic_mcp_teaming.PeerBus.{
  Bus, PeerBusContext, Persisted, Reply, Code, saved, failed_before_rename, failed_after_rename,
  persist,
}
use agentic_mcp_teaming.PeerBus.Linked.{IsLinked}
use agentic_mcp_teaming.PeerBus.Register.{RegisterSessionParams, register_session_tool, settle}
use agentic_mcp_teaming.PeerBus.Register.Laws.{
  register_tool-cases, register_tool_rolls_back, b_logged,
}

-- A new entry has an empty mailbox or the one of the entry that it replaces.
new_entry-unread :
    (p : Platform) (now : ℕ) (r : RegisterParams) (raw_token : String)
    (existing : Option SessionEntry) (keeps : Bool)
    → ((new_entry p now r raw_token existing keeps).unread_message_ids ≡ [])
      ⊎ ((e : SessionEntry) × (existing ≡ some e)
          × ((new_entry p now r raw_token existing keeps).unread_message_ids
              ≡ e.unread_message_ids))
unfolding new_entry
new_entry-unread p now r raw_token none keeps = inl refl
new_entry-unread p now r raw_token (some e) true = inr (e, refl, refl)
new_entry-unread p now r raw_token (some e) false = inl refl

-- After a registration a mailbox is empty or as it was.
register-unread :
    (p : Platform) (now : ℕ) (s : SessionRegistry) (r : RegisterParams) (raw_token name : String)
    (ids : List String) {done : RegisterResult × SessionRegistry}
    → register p now s r raw_token ≡ ok done
    → snapshot_unread done.1 name ≡ some ids
    → (ids ≡ []) ⊎ (snapshot_unread s name ≡ some ids)
unfolding store_entry snapshot_unread
register-unread p now s r raw_token name ids {done} e h =
    let (keeps, _, _, eq) = register-inversion p now s r raw_token e in
    let entry = new_entry p now r raw_token (Dict.get s.sessions r.name) keeps in
    let h' = subst (λ d. snapshot_unread d.1 name ≡ some ids) eq h in
    elim (Bool-cases (str_eq r.name name)) [
      | inr other ↦ inr (ground (arith, other, h', Dict.get-set s.sessions r.name entry name))
      | inl same ↦
          let found : entry.unread_message_ids ≡ ids =
            ground (arith, same, h', Dict.get-set s.sessions r.name entry name) in
          elim (new_entry-unread p now r raw_token (Dict.get s.sessions r.name) keeps) [
            | inl fresh ↦ inl (sym found ∙ fresh)
            | inr (old, there, kept) ↦
                inr (ground (arith, there, kept, found, same, eq_iff r.name name))
          ]
    ]

module _ (p : Platform) (now : ℕ) (outcome : Persisted) (ctx : PeerBusContext) (b : Bus)
    (q : RegisterSessionParams) (raw_token : String) where
  abbrev tool : Reply × Bus
  tool = register_session_tool p now outcome ctx b q raw_token

  settle-log :
      (done : RegisterResult × SessionRegistry) (o : Persisted)
      → (settle p o
          (b_logged p now outcome ctx b q raw_token)
          (snapshot_entry b.registry q.name)
          q.name
          (ok done)).1.log
        ≡ b.log
  unfolding persist
  settle-log done saved = refl
  settle-log done failed_before_rename = refl
  settle-log done failed_after_rename = refl

  pub register_tool-log : tool.1.log ≡ b.log
  register_tool-log = elim (register_tool-cases p now outcome ctx b q raw_token) [
    | inl (_, _, _, same) ↦ same
    | inr (_, _, done, _, went) ↦ ap (λ t. t.1.log) went ∙ settle-log done outcome
  ]

  abbrev Good : String → List String → Type 0
  Good name ids = All (AddressedTo (load_all p b.log) name) ids

  module _ (valid : IsValid b.registry) (linked : IsLinked p b) where
    as_before :
        (name : String) (ids : List String)
        → tool.1.registry.sessions ≡ b.registry.sessions
        → snapshot_unread tool.1.registry name ≡ some ids
        → Good name ids
    unfolding snapshot_unread
    as_before name ids same h =
        linked.at name ids
          (sym (ap (λ d. snapshot_unread (record b.registry { sessions = d }) name) same) ∙ h)

    settled-Good :
        (r : RegisterParams) (done : RegisterResult × SessionRegistry) (o : Persisted)
        (name : String) (ids : List String)
        → register p now b.registry r raw_token ≡ ok done
        → outcome ≡ o
        → tool
          ≡ settle p o
              (b_logged p now outcome ctx b q raw_token)
              (snapshot_entry b.registry q.name)
              q.name
              (ok done)
        → snapshot_unread tool.1.registry name ≡ some ids
        → Good name ids
    unfolding persist
    settled-Good r done saved name ids e _ went h =
        elim (register-unread p now b.registry r raw_token name ids e
          (sym (ap (λ t. snapshot_unread t.1.registry name) went) ∙ h)) [
            | inl none_left ↦ subst (Good name) (sym none_left) tt
            | inr before ↦ linked.at name ids before
          ]
    settled-Good r done failed_before_rename name ids e _ went h =
        as_before name ids
          (register_tool_rolls_back p now outcome ctx b q raw_token Code.response_internal_error
            valid (ap (λ t. t.0) went))
          h
    settled-Good r done failed_after_rename name ids e _ went h =
        as_before name ids
          (register_tool_rolls_back p now outcome ctx b q raw_token Code.response_internal_error
            valid (ap (λ t. t.0) went))
          h

    mailbox-Good :
        (name : String) (ids : List String)
        → snapshot_unread tool.1.registry name ≡ some ids
        → Good name ids
    mailbox-Good name ids h = elim (register_tool-cases p now outcome ctx b q raw_token) [
      | inl (_, _, same, _) ↦ as_before name ids (ap (λ r. r.sessions) same) h
      | inr (r, _, done, e, went) ↦ settled-Good r done outcome name ids e refl went h
    ]

    pub register_tool-IsLinked : IsLinked p tool.1
    register_tool-IsLinked = record {
      at = λ name ids h.
          subst (λ l. All (AddressedTo (load_all p l) name) ids) (sym register_tool-log)
            (mailbox-Good name ids h);
    }

-- ===== src/PeerBus/Linked.antt =====
-- The mailboxes and the log (src/server/tools/peer-bus.ts, src/core/message-store.ts): every unread id
-- is a message of the log for the session that has it.
use mathlib.Core.Option
use agentic_mcp_teaming.Common.{
  String, ◌≡◌, refl, sym, ap, ◌∙◌, ◌⊎◌, inl, inr, Option, none, some, List, [], ◌∷◌, ◌++◌, arith,
  length, length-append, All, All-append, str_eq, eq_iff, subst, Bool-cases, if◌then◌else◌,
}
use mathlib.Core.Option.{some-injective}
use agentic_mcp_teaming.Dict.{Dict}
use agentic_mcp_teaming.Dict
use agentic_mcp_teaming.Platform.{Platform}
use agentic_mcp_teaming.Message.{PeerMessage, message_json, append, load_all}
use agentic_mcp_teaming.Message.Log.{JsonLaws, load_all-append}
use agentic_mcp_teaming.SessionRegistry.{snapshot_unread}
use agentic_mcp_teaming.SessionRegistry.Disk.Reconciled.{AddressedTo}
use agentic_mcp_teaming.PeerBus.{Bus, PeerBusContext, Reply}
use agentic_mcp_teaming.PeerBus.Send.{SendMessageParams, Io, send_message_tool}
use agentic_mcp_teaming.PeerBus.Send.Laws.{send_tool-cases}
use agentic_mcp_teaming.PeerBus.Send.Logged.{sent_envelope, send_tool-Logged}

-- Every unread id of a session is in the log, and addressed to the session.
pub record IsLinked (p : Platform) (b : Bus) : Type 0 where
  pub at :
      (name : String) (ids : List String)
      → snapshot_unread b.registry name ≡ some ids
      → All (AddressedTo (load_all p b.log) name) ids

-- A message with a new id does not hide another one.
AddressedTo-set :
    (lookup : Dict PeerMessage) (m : PeerMessage) (name id : String)
    → Dict.get lookup m.message_id ≡ none
    → AddressedTo lookup name id
    → AddressedTo (Dict.set lookup m.message_id m) name id
AddressedTo-set lookup m name id fresh (found, there, to) = (
  found,
  ground (arith, Dict.get-set lookup m.message_id m id, eq_iff m.message_id id, fresh, there),
  to,
)

All-set :
    (lookup : Dict PeerMessage) (m : PeerMessage) (name : String) (ids : List String)
    → Dict.get lookup m.message_id ≡ none
    → All (AddressedTo lookup name) ids
    → All (AddressedTo (Dict.set lookup m.message_id m) name) ids
All-set lookup m name [] fresh h = tt
All-set lookup m name (id ∷ ids) fresh h =
    (AddressedTo-set lookup m name id fresh h.0, All-set lookup m name ids fresh h.1)

-- The request's envelope is printed and read back by the platform, and its id is not in the log.
pub record IsFresh (p : Platform) (io : Io) (b : Bus) (q : SendMessageParams) : Type 0 where
  pub unused : Dict.get (load_all p b.log) io.message_id ≡ none
  pub readable : (m : PeerMessage) → sent_envelope p io b q ≡ some m → JsonLaws p (message_json m)

module _ (p : Platform) (io : Io) (ctx : PeerBusContext) (b : Bus) (q : SendMessageParams)
    (fresh : IsFresh p io b q) (linked : IsLinked p b) (ended : b.log.rest ≡ "") where
  abbrev tool : Reply × Bus
  tool = send_message_tool p io ctx b q

  -- The messages that were there stay, and a new one may come.
  abbrev Grown : Type 0
  Grown =
      (tool.1.log ≡ b.log)
      ⊎ ((m : PeerMessage) × (load_all p tool.1.log ≡ Dict.set (load_all p b.log) m.message_id m)
          × (m.message_id ≡ io.message_id)
          × (m.to ≡ q.to)
          × (tool.1.log ≡ append p b.log m))

  grown : Grown
  grown = elim (send_tool-Logged p io ctx b q) [
    | inl same ↦ inl same
    | inr (m, sends, logged, id, to) ↦ inr (
      m,
      ap (load_all p) logged ∙ (load_all-append p b.log m (fresh.readable m sends) ended).0,
      id,
      to,
      logged,
    )
  ]

  kept :
      (name : String) (ids : List String)
      → All (AddressedTo (load_all p b.log) name) ids
      → All (AddressedTo (load_all p tool.1.log) name) ids
  kept name ids h = elim grown [
    | inl same ↦ subst (λ l. All (AddressedTo (load_all p l) name) ids) (sym same) h
    | inr (m, read, id, to, _) ↦
        subst (λ d. All (AddressedTo d name) ids) (sym read)
          (All-set (load_all p b.log) m name ids
            (ap (λ i. Dict.get (load_all p b.log) i) id ∙ fresh.unused) h)
  ]

  not_longer : (l : List String) (line : String) → l ≡ l ++ line ∷ [] → ⊥
  not_longer l line h = absurd (omega (arith, ap length h, length-append l (line ∷ [])))

  appended-ne : (m : PeerMessage) → tool.1.log ≡ b.log → tool.1.log ≡ append p b.log m → ⊥
  unfolding append
  appended-ne m same logged = not_longer b.log.lines _ (ap (λ l. l.lines) (sym same ∙ logged))

  -- The message that is delivered is in the log, for its recipient.
  delivered-AddressedTo :
      (m : PeerMessage) (name : String)
      → tool.1.log ≡ append p b.log m
      → q.to ≡ name
      → AddressedTo (load_all p tool.1.log) name io.message_id
  delivered-AddressedTo sends name logged to_name = elim grown [
    | inl same ↦ absurd (appended-ne sends same logged)
    | inr (m, read, id, to, _) ↦ (
      m,
      ap (λ d. Dict.get d io.message_id) read
          ∙ ap (λ i. Dict.get (Dict.set (load_all p b.log) m.message_id m) i) (sym id)
          ∙ Dict.get-set_self (load_all p b.log) m.message_id m,
      to ∙ to_name,
    )
  ]

  added-linked :
      (m : PeerMessage) (name : String) (ids : List String) (before : Option (List String))
      → tool.1.log ≡ append p b.log m
      → q.to ≡ name
      → snapshot_unread b.registry name ≡ before
      → Option.map (λ xs. xs ++ io.message_id ∷ []) before ≡ some ids
      → All (AddressedTo (load_all p tool.1.log) name) ids
  added-linked m name ids none logged to_name there h = cc
  added-linked m name ids (some xs) logged to_name there h =
      subst (All (AddressedTo (load_all p tool.1.log) name)) (some-injective _ _ h) (
        All-append (AddressedTo (load_all p tool.1.log) name) xs (io.message_id ∷ [])
          (kept name xs (linked.at name xs there))
          (delivered-AddressedTo m name logged to_name, tt))

  -- A call with a fresh id keeps the mailboxes and the log linked, wherever it fails.
  pub send_tool-IsLinked : IsLinked p tool.1
  send_tool-IsLinked = record {
    at = λ name ids h. elim (send_tool-cases p io ctx b q) [
      | inl (_, quiet) ↦ kept name ids (linked.at name ids (sym (quiet name) ∙ h))
      | inr (kind, from, body, _, _, _, _, _, added, logged, _) ↦
          elim (Bool-cases (str_eq q.to name)) [
            | inr other ↦ kept name ids (
                linked.at name ids (
                  sym (
                    added name
                    ∙ ap
                        (λ c.
                          if c
                          then Option.map (λ xs. xs ++ io.message_id ∷ [])
                              (snapshot_unread b.registry name)
                          else snapshot_unread b.registry name)
                        other)
                  ∙ h))
            | inl same ↦
                added-linked _ name ids (snapshot_unread b.registry name) logged
                  ((eq_iff q.to name).0 same) refl
                  (sym (
                      added name
                      ∙ ap
                          (λ c.
                            if c
                            then Option.map (λ xs. xs ++ io.message_id ∷ [])
                                (snapshot_unread b.registry name)
                            else snapshot_unread b.registry name)
                          same)
                    ∙ h)
          ]
    ];
  }

  -- The last line of the log has an end after the call.
  pub send_tool-ended : tool.1.log.rest ≡ ""
  unfolding append
  send_tool-ended = elim grown [
    | inl same ↦ ap (λ l. l.rest) same ∙ ended
    | inr (m, _, _, _, logged) ↦ ap (λ l. l.rest) logged
  ]

-- ===== src/PeerBus/Send/Logged.antt =====
-- What `sendMessageTool` writes to the log (src/server/tools/peer-bus.ts).
use agentic_mcp_teaming.Common.{
  ℕ, String, ◌≡◌, refl, ap, ◌∙◌, ◌⊎◌, inl, inr, Option, none, some, List, Bool-cases, ltb,
}
use agentic_mcp_teaming.Platform.{Platform, Json}
use agentic_mcp_teaming.Patterns.{session_name_regex}
use agentic_mcp_teaming.Message.{
  PeerMessage, PeerMessageKind, MessageLog, append, compute_body_byte_length,
  peer_bus_max_body_bytes,
}
use agentic_mcp_teaming.SessionRegistry
use agentic_mcp_teaming.SessionRegistry.{SessionEntry, can_add_unread, snapshot_unread}
use agentic_mcp_teaming.SessionRegistry.Auth.{authenticate}
use agentic_mcp_teaming.PeerBus.{
  PeerBusContext, Bus, Persisted, saved, failed_before_rename, failed_after_rename, persist,
}
use agentic_mcp_teaming.PeerBus.Send.{
  SendMessageParams, Io, parse_send, normal_body, body_ok, Delivery, refused, delivered, Appending,
  written, not_written, not_synced, deliver_appended, on_append, deliver, conclude, envelope,
  send_body, send_authenticated, send_parsed, send_message_tool, after_persist,
}

module _ (p : Platform) (io : Io) (b : Bus) (q : SendMessageParams) where
  abbrev with_body : PeerMessageKind → SessionEntry → Option Json → Option PeerMessage
  with_body kind from none = none
  with_body kind from (some body) = some (envelope p io q kind from body)

  abbrev from_sender : PeerMessageKind → Option SessionEntry → Option PeerMessage
  from_sender kind none = none
  from_sender kind (some from) = with_body kind from (normal_body p kind q.body)

  abbrev of_kind : Option PeerMessageKind → Option PeerMessage
  of_kind none = none
  of_kind (some kind) = from_sender kind (authenticate p b.registry q.session_token)

  -- The envelope of a request, if its kind is known, its sender is authenticated and it has a body.
  abbrev pub sent_envelope : Option PeerMessage
  sent_envelope = of_kind (parse_send q)

  -- The log is the same, or has the envelope at its end.
  abbrev pub Logged : Option PeerMessage → MessageLog → Type 0
  Logged o l =
      (l ≡ b.log)
      ⊎ ((m : PeerMessage) × (o ≡ some m)
          × (l ≡ append p b.log m)
          × (m.message_id ≡ io.message_id)
          × (m.to ≡ q.to))

after_persist-log :
    (p : Platform) (o : Persisted) (b : Bus) (to : String) (snapshot : Option (List String)) (n : ℕ)
    → (after_persist o (persist p o b) to snapshot n).1.log ≡ b.log
unfolding persist
after_persist-log p saved b to snapshot n = refl
after_persist-log p failed_before_rename b to none n = refl
after_persist-log p failed_before_rename b to (some ids) n = refl
after_persist-log p failed_after_rename b to none n = refl
after_persist-log p failed_after_rename b to (some ids) n = refl

on_append-log :
    (p : Platform) (io : Io) (b : Bus) (from : SessionEntry) (m : PeerMessage) (a : Appending)
    → ((on_append p io b from m a).1.log ≡ b.log)
      ⊎ ((on_append p io b from m a).1.log ≡ append p b.log m)
unfolding deliver_appended
on_append-log p io b from m not_written = inl refl
on_append-log p io b from m not_synced = inr refl
on_append-log p io b from m written =
    inr (after_persist-log p io.persisted _ m.to (snapshot_unread b.registry m.to) _)

deliver-log :
    (p : Platform) (io : Io) (b : Bus) (from : SessionEntry) (m : PeerMessage)
    → ((deliver p io b from m).1.log ≡ b.log) ⊎ ((deliver p io b from m).1.log ≡ append p b.log m)
unfolding deliver
deliver-log p io b from m = elim (Bool-cases (can_add_unread b.registry m.to)) [
  | inr full ↦ inl (rw full refl)
  | inl room ↦ rw room (on_append-log p io b from m io.appended)
]

module _ (p : Platform) (io : Io) (ctx : PeerBusContext) (b : Bus) (q : SendMessageParams) where
  conclude-log : (m : PeerMessage) (out : Delivery × Bus) → (conclude ctx m out).1.log ≡ out.1.log
  conclude-log m (refused code, b') = refl
  conclude-log m (delivered n, b') = refl

  send_body-Logged :
      (b' : Bus) (kind : PeerMessageKind) (from : SessionEntry) (body : Option Json)
      → b'.log ≡ b.log
      → Logged p io b q
          (with_body p io b q kind from body)
          (send_body p io ctx b' q kind from body).1.log
  send_body-Logged b' kind from none same = inl same
  send_body-Logged b' kind from (some body) same =
      let m = envelope p io q kind from body in
      elim (Bool-cases (ltb peer_bus_max_body_bytes (compute_body_byte_length p body))) [
        | inl large ↦ inl (rw large same)
        | inr fits ↦ elim (Bool-cases (SessionRegistry.has b'.registry q.to)) [
          | inr unknown ↦ inl (rw (fits, unknown) same)
          | inl known ↦
              rw (fits, known)
                (elim (deliver-log p io b' from m) [
                  | inl quiet ↦ inl (conclude-log m (deliver p io b' from m) ∙ quiet ∙ same)
                  | inr grown ↦ inr (
                    m,
                    refl,
                    conclude-log m (deliver p io b' from m) ∙ grown ∙ ap (λ l. append p l m) same,
                    refl,
                    refl,
                  )
                ])
        ]
      ]

  send_authenticated-Logged :
      (kind : PeerMessageKind) (o : Option SessionEntry)
      → Logged p io b q
          (from_sender p io b q kind o)
          (send_authenticated p io ctx b q kind (normal_body p kind q.body) o).1.log
  send_authenticated-Logged kind none = inl refl
  send_authenticated-Logged kind (some from) = elim (Bool-cases (session_name_regex q.to)) [
    | inr bad ↦ inl (rw bad refl)
    | inl good ↦ elim (Bool-cases (body_ok kind (normal_body p kind q.body))) [
      | inr bad ↦ inl (rw (good, bad) refl)
      | inl fine ↦ rw (good, fine) (send_body-Logged _ kind from (normal_body p kind q.body) refl)
    ]
  ]

  send_parsed-Logged :
      (kind : Option PeerMessageKind)
      → Logged p io b q (of_kind p io b q kind) (send_parsed p io ctx b q kind).1.log
  send_parsed-Logged none = inl refl
  send_parsed-Logged (some kind) =
      send_authenticated-Logged kind (authenticate p b.registry q.session_token)

  -- A call appends at most the envelope of its request.
  pub send_tool-Logged :
      Logged p io b q (sent_envelope p io b q) (send_message_tool p io ctx b q).1.log
  unfolding send_message_tool
  send_tool-Logged = send_parsed-Logged (parse_send q)

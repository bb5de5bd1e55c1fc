-- ===== src/PeerBus/Send/Laws.antt =====
-- What a call of `sendMessageTool` leaves behind (src/server/tools/peer-bus.ts).
use mathlib.Core.Option
use agentic_mcp_teaming.Common.{
  String, ◌≡◌, refl, ap, ◌∙◌, ◌⊎◌, inl, inr, Bool, true, false, Option, none, some, [], ◌∷◌, ◌++◌,
  arith, Bool-cases, ltb, if◌then◌else◌, str_eq, ◌≤◌,
}
use agentic_mcp_teaming.Platform.{Platform, Json}
use agentic_mcp_teaming.Patterns.{session_name_regex}
use agentic_mcp_teaming.Message.{
  PeerMessageKind, kind_text, append, compute_body_byte_length, peer_bus_max_body_bytes,
}
use agentic_mcp_teaming.SessionRegistry
use agentic_mcp_teaming.SessionRegistry.{SessionEntry, SessionRegistry, touch, snapshot_unread}
use agentic_mcp_teaming.SessionRegistry.Auth.{authenticate}
use agentic_mcp_teaming.SessionRegistry.Disk.{registry_json}
use agentic_mcp_teaming.SessionRegistry.Unread.{Quiet, Added, touch-Quiet}
use agentic_mcp_teaming.PeerBus.{Reply, sent, PeerBusContext, Bus, with_registry}
use agentic_mcp_teaming.PeerBus.Send.{
  SendMessageParams, Io, parse_send, normal_body, body_ok, Delivery, refused, delivered, deliver,
  conclude, envelope, send_body, send_authenticated, send_parsed, send_message_tool,
}
use agentic_mcp_teaming.PeerBus.Send.Asked.{BodyOf, normal_body-BodyOf, parse_send-kind}
use agentic_mcp_teaming.PeerBus.Send.Delivering.{Delivered, Refused, deliver-cases}

abbrev pub is_sent : Reply → Bool
is_sent (sent id) = true
is_sent _ = false

-- A call ends with no mailbox changed and no message id in its reply, or with a delivery.
module _ (p : Platform) (io : Io) (ctx : PeerBusContext) (b : Bus) (q : SendMessageParams) where
  abbrev tool : Reply × Bus
  tool = send_message_tool p io ctx b q

  abbrev pub Silent : Reply × Bus → Type 0
  Silent out = (is_sent out.0 ≡ false) × Quiet b.registry out.1.registry

  abbrev pub Went : Reply × Bus → Type 0
  Went out =
      (kind : PeerMessageKind) × (from : SessionEntry) × (body : Json) × (authenticate p b.registry
          q.session_token
        ≡ some from)
      × (q.kind ≡ kind_text kind)
      × BodyOf p kind q.body body
      × (compute_body_byte_length p body ≤ peer_bus_max_body_bytes)
      × (out.0 ≡ sent io.message_id)
      × Added q.to io.message_id b.registry out.1.registry
      × (out.1.log ≡ append p b.log (envelope p io q kind from body))
      × (out.1.disk ≡ some (p.stringify (registry_json out.1.registry)))

  abbrev seen_by : SessionEntry → Bus
  seen_by from = with_registry b (touch p io.auth_time b.registry from.name)

  conclude-cases :
      (kind : PeerMessageKind) (from : SessionEntry) (body : Json)
      → authenticate p b.registry q.session_token ≡ some from
      → q.kind ≡ kind_text kind
      → BodyOf p kind q.body body
      → compute_body_byte_length p body ≤ peer_bus_max_body_bytes
      → (out : Delivery × Bus)
      → Refused p io from (envelope p io q kind from body) (seen_by from) out
        ⊎ Delivered p io from (envelope p io q kind from body) (seen_by from) out
      → Silent (conclude ctx (envelope p io q kind from body) out)
        ⊎ Went (conclude ctx (envelope p io q kind from body) out)
  conclude-cases kind from body auth named asked fits (refused c, b') (inl (code, _, quiet)) =
      inl (refl, λ j. quiet j ∙ touch-Quiet p io.auth_time b.registry from.name j)
  conclude-cases kind from body auth named asked fits (refused c, b') (inr (count, bad, _, _, _)) =
      cc
  conclude-cases kind from body auth named asked fits (delivered n, b') (inl (code, bad, _)) = cc
  conclude-cases kind from body auth named asked fits (delivered n, b')
        (inr (count, _, added, logged, disk)) =
      inr (
        kind,
        from,
        body,
        auth,
        named,
        asked,
        fits,
        refl,
        λ j.
            added j
            ∙ ap (λ o. if str_eq q.to j then Option.map (λ ids. ids ++ io.message_id ∷ []) o else o)
                (touch-Quiet p io.auth_time b.registry from.name j),
        logged,
        disk,
      )

  send_body-cases :
      (kind : PeerMessageKind) (from : SessionEntry) (body : Option Json)
      → authenticate p b.registry q.session_token ≡ some from
      → q.kind ≡ kind_text kind
      → normal_body p kind q.body ≡ body
      → body_ok kind body ≡ true
      → Silent (send_body p io ctx (seen_by from) q kind from body)
        ⊎ Went (send_body p io ctx (seen_by from) q kind from body)
  unfolding SessionRegistry.has
  send_body-cases kind from none auth named normal fine =
      inl (refl, touch-Quiet p io.auth_time b.registry from.name)
  send_body-cases kind from (some body) auth named normal fine =
      elim (Bool-cases (ltb peer_bus_max_body_bytes (compute_body_byte_length p body))) [
        | inl large ↦ rw large (inl (refl, touch-Quiet p io.auth_time b.registry from.name))
        | inr fits ↦ elim (Bool-cases (SessionRegistry.has (seen_by from).registry q.to)) [
          | inr unknown ↦
              rw (fits, unknown) (inl (refl, touch-Quiet p io.auth_time b.registry from.name))
          | inl known ↦
              rw (fits, known)
                (conclude-cases kind from body auth named
                  (normal_body-BodyOf p kind q.body body normal fine) (ground arith)
                  (deliver p io (seen_by from) from (envelope p io q kind from body))
                  (deliver-cases p io from (envelope p io q kind from body) (seen_by from)))
        ]
      ]

  send_authenticated-cases :
      (kind : PeerMessageKind) (o : Option SessionEntry)
      → authenticate p b.registry q.session_token ≡ o
      → q.kind ≡ kind_text kind
      → let out = send_authenticated p io ctx b q kind (normal_body p kind q.body) o in
        Silent out ⊎ Went out
  send_authenticated-cases kind none auth named = inl (refl, λ j. refl)
  send_authenticated-cases kind (some from) auth named =
      elim (Bool-cases (session_name_regex q.to)) [
        | inr bad ↦ inl (rw bad refl, rw bad (touch-Quiet p io.auth_time b.registry from.name))
        | inl good ↦ elim (Bool-cases (body_ok kind (normal_body p kind q.body))) [
          | inr bad ↦ inl (
            rw (good, bad) refl,
            rw (good, bad) (touch-Quiet p io.auth_time b.registry from.name),
          )
          | inl fine ↦
              rw (good, fine)
                (send_body-cases kind from (normal_body p kind q.body) auth named refl fine)
        ]
      ]

  send_parsed-cases :
      (kind : Option PeerMessageKind)
      → parse_send q ≡ kind
      → Silent (send_parsed p io ctx b q kind) ⊎ Went (send_parsed p io ctx b q kind)
  send_parsed-cases none parsed = inl (refl, λ j. refl)
  send_parsed-cases (some kind) parsed =
      send_authenticated-cases kind (authenticate p b.registry q.session_token) refl
        (parse_send-kind q kind parsed)

  pub send_tool-cases : Silent tool ⊎ Went tool
  unfolding send_message_tool
  send_tool-cases = send_parsed-cases (parse_send q) refl

  -- A call without a message id in its reply leaves every mailbox as it was: a failure to write
  -- the log or the file is undone.
  pub send_tool_undoes :
      is_sent tool.0 ≡ false
      → (j : String) → snapshot_unread tool.1.registry j ≡ snapshot_unread b.registry j
  send_tool_undoes failed j = elim send_tool-cases [
    | inl (_, quiet) ↦ quiet j
    | inr (_, _, _, _, _, _, _, reply, _, _, _) ↦ absurd (ground (arith, reply, failed))
  ]

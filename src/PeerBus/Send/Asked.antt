-- ===== src/PeerBus/Send/Asked.antt =====
-- The kind and the body of an envelope, by what was asked for (`sendMessageTool`,
-- src/server/tools/peer-bus.ts).
use agentic_mcp_teaming.Common.{
  String, ◌≡◌, ◌≢◌, refl, ap, ◌∙◌, ◌⊎◌, inl, inr, Bool, true, false, Option, none, some, arith,
  str_eq, eq_iff, Bool-cases,
}
use mathlib.Core.Option.{some-injective}
use agentic_mcp_teaming.Platform.{Platform, Json, null, bool, number, text, array, object, Members}
use agentic_mcp_teaming.Message.{
  PeerMessageKind, workflow_event, chat, request, response, kind_text, kind_of,
}
use agentic_mcp_teaming.PeerBus.Send.{
  SendMessageParams, parse_send, parse_kind, reply_to_ok, normal_body, or_json, body_ok,
}

-- A body is the one that was sent; that of a workflow event is an object, which may have been sent as
-- its text.
abbrev pub BodyOf : Platform → PeerMessageKind → Option Json → Json → Type 0
BodyOf p kind sent body =
    ((kind ≢ workflow_event) × (sent ≡ some body))
    ⊎ ((kind ≡ workflow_event)
        × (ms : Members) × (body ≡ object ms)
        × ((sent ≡ some body)
            ⊎ ((s : String) × (sent ≡ some (text s)) × (p.json_parse s ≡ some body))))

event_is_object :
    (body : Json) → body_ok workflow_event (some body) ≡ true → (ms : Members) × (body ≡ object ms)
unfolding body_ok
event_is_object (object ms) h = (ms, refl)
event_is_object null h = cc
event_is_object (bool x) h = cc
event_is_object (number s) h = cc
event_is_object (text s) h = cc
event_is_object (array es) h = cc

same_event :
    (p : Platform) (sent : Option Json) (body : Json)
    → sent ≡ some body
    → body_ok workflow_event (some body) ≡ true
    → BodyOf p workflow_event sent body
same_event p sent body same fine =
    let (ms, is_object) = event_is_object body fine in inr (refl, ms, is_object, inl same)

text_event :
    (p : Platform) (s : String) (parsed : Option Json) (body : Json)
    → p.json_parse s ≡ parsed
    → or_json parsed (text s) ≡ some body
    → body_ok workflow_event (some body) ≡ true
    → BodyOf p workflow_event (some (text s)) body
text_event p s none body read same fine = same_event p (some (text s)) body same fine
text_event p s (some j) body read same fine =
    let (ms, is_object) = event_is_object body fine in
    inr (refl, ms, is_object, inr (s, refl, read ∙ same))

pub normal_body-BodyOf :
    (p : Platform) (kind : PeerMessageKind) (sent : Option Json) (body : Json)
    → normal_body p kind sent ≡ some body
    → body_ok kind (some body) ≡ true
    → BodyOf p kind sent body
unfolding normal_body
normal_body-BodyOf p chat sent body h fine = inl (λ e. cc, h)
normal_body-BodyOf p request sent body h fine = inl (λ e. cc, h)
normal_body-BodyOf p response sent body h fine = inl (λ e. cc, h)
normal_body-BodyOf p workflow_event (some (text s)) body h fine =
    text_event p s (p.json_parse s) body refl h fine
normal_body-BodyOf p workflow_event none body h fine = same_event p none body h fine
normal_body-BodyOf p workflow_event (some null) body h fine = same_event p (some null) body h fine
normal_body-BodyOf p workflow_event (some (bool x)) body h fine =
    same_event p (some (bool x)) body h fine
normal_body-BodyOf p workflow_event (some (number s)) body h fine =
    same_event p (some (number s)) body h fine
normal_body-BodyOf p workflow_event (some (array es)) body h fine =
    same_event p (some (array es)) body h fine
normal_body-BodyOf p workflow_event (some (object ms)) body h fine =
    same_event p (some (object ms)) body h fine

kind_of-text : (s : String) (kind : PeerMessageKind) → kind_of s ≡ some kind → s ≡ kind_text kind
kind_of-text s kind h = elim (Bool-cases (str_eq s "workflow-event")) [
  | inl e ↦ (eq_iff s "workflow-event").0 e ∙ ap kind_text (some-injective _ _ (rw e at h))
  | inr e ↦ elim (Bool-cases (str_eq s "chat")) [
    | inl f ↦ (eq_iff s "chat").0 f ∙ ap kind_text (some-injective _ _ (rw (e, f) at h))
    | inr f ↦ elim (Bool-cases (str_eq s "request")) [
      | inl g ↦ (eq_iff s "request").0 g ∙ ap kind_text (some-injective _ _ (rw (e, f, g) at h))
      | inr g ↦ elim (Bool-cases (str_eq s "response")) [
        | inl i ↦
            (eq_iff s "response").0 i ∙ ap kind_text (some-injective _ _ (rw (e, f, g, i) at h))
        | inr i ↦ absurd (ground (arith, e, f, g, i, h))
      ]
    ]
  ]
]

pub parse_send-kind :
    (q : SendMessageParams) (kind : PeerMessageKind)
    → parse_send q ≡ some kind
    → q.kind ≡ kind_text kind
unfolding parse_send
parse_send-kind q kind h = parsed (reply_to_ok q.reply_to) h
  where
    parsed : (b : Bool) → parse_kind b (kind_of q.kind) ≡ some kind → q.kind ≡ kind_text kind
    parsed true e = kind_of-text q.kind kind e
    parsed false e = cc

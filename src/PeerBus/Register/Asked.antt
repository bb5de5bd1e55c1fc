-- ===== src/PeerBus/Register/Asked.antt =====
-- What `registerSessionTool` asks of the registry, by its request (src/server/tools/peer-bus.ts).
use agentic_mcp_teaming.Common.{
  String, ◌≡◌, refl, sym, ap, ◌⊎◌, ◌≢◌, inl, inr, Option, none, some, true, get_or, arith,
  Bool-cases,
}
use agentic_mcp_teaming.Dict
use agentic_mcp_teaming.SessionRegistry.Register.{OptField, undefined, null, string, RegisterParams}
use agentic_mcp_teaming.PeerBus.{AutoWakeConfig, PeerBusContext, default_ttl_ms}
use agentic_mcp_teaming.PeerBus.Register.{
  RegisterSessionParams, Resolved, key, rejected, resolve_default, resolve_in, nonempty,
  resolve_with, resolve_auto_wake_key,
}

-- The key that a registration asks for: none, the default for null, or one that the operator allows.
abbrev pub KeyOf : PeerBusContext → OptField → OptField → Type 0
KeyOf ctx asked chosen =
    ((asked ≡ undefined) × (chosen ≡ undefined))
    ⊎ ((c : AutoWakeConfig) × (ctx.auto_wake_config ≡ some c)
        × (((asked ≡ null) × (k : String) × (c.default_command ≡ some k) × (chosen ≡ string k))
            ⊎ ((k : String) × (asked ≡ string k)
                × (Dict.has c.allowed_commands k ≡ true)
                × (chosen ≡ string k))))

-- What is asked of the registry: each field is that of the request, or of the connection's context.
abbrev pub AskedFor : PeerBusContext → RegisterSessionParams → RegisterParams → Type 0
AskedFor ctx q r =
    (r.name ≡ q.name)
    × (r.pane_token ≡ ctx.pane_token)
    × (r.cmux_surface_id ≡ q.surface_id)
    × (r.cmux_workspace_id ≡ q.workspace_id)
    × (r.inactivity_ttl_ms ≡ get_or ctx.inactivity_ttl_ms default_ttl_ms)
    × KeyOf ctx q.auto_wake_key r.auto_wake_key

abbrev key_or : OptField → Resolved → OptField
key_or d (key k) = k
key_or d (rejected c) = d

key-injective : {k l : OptField} → key k ≡ key l → k ≡ l
key-injective {k} h = ap (key_or k) h

in-KeyOf :
    (ctx : PeerBusContext) (c : AutoWakeConfig) (asked k : OptField)
    → ctx.auto_wake_config ≡ some c
    → asked ≢ undefined
    → resolve_in c asked ≡ key k
    → KeyOf ctx asked k
in-KeyOf ctx c undefined k configured given h = absurd (given refl)
in-KeyOf ctx c null k configured given h = by_default c.default_command refl h
  where
    by_default :
        (o : Option String) → c.default_command ≡ o → resolve_default o ≡ key k → KeyOf ctx null k
    by_default none e g = cc
    by_default (some d) e g = inr (c, configured, inl (refl, d, e, sym (key-injective g)))
in-KeyOf ctx c (string s) k configured given h = elim (Bool-cases (Dict.has c.allowed_commands s)) [
  | inr other ↦ absurd (ground (arith, other, h))
  | inl allowed ↦ inr (c, configured, inr (s, refl, allowed, sym (key-injective (rw allowed at h))))
]

with-KeyOf :
    (ctx : PeerBusContext) (o : Option AutoWakeConfig) (asked k : OptField)
    → ctx.auto_wake_config ≡ o
    → asked ≢ undefined
    → resolve_with o asked ≡ key k
    → KeyOf ctx asked k
with-KeyOf ctx none asked k configured given h = cc
with-KeyOf ctx (some c) asked k configured given h =
    elim (Bool-cases (nonempty c.allowed_commands)) [
      | inr none_allowed ↦ absurd (ground (arith, none_allowed, h))
      | inl some_allowed ↦ in-KeyOf ctx c asked k configured given (rw some_allowed at h)
    ]

pub resolved-KeyOf :
    (ctx : PeerBusContext) (asked k : OptField)
    → resolve_auto_wake_key ctx asked ≡ key k
    → KeyOf ctx asked k
unfolding resolve_auto_wake_key
resolved-KeyOf ctx undefined k h = inl (refl, sym (key-injective h))
resolved-KeyOf ctx null k h = with-KeyOf ctx ctx.auto_wake_config null k refl (λ e. cc) h
resolved-KeyOf ctx (string s) k h =
    with-KeyOf ctx ctx.auto_wake_config (string s) k refl (λ e. cc) h

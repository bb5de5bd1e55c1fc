-- ===== src/PeerBus/Register/Laws.antt =====
-- What a call of `registerSessionTool` leaves behind (src/server/tools/peer-bus.ts).
use agentic_mcp_teaming.Common.{
  ℕ, String, ◌≡◌, refl, sym, ap, ◌∙◌, ◌⊎◌, inl, inr, some, arith, Option-cases, Bool-cases, subst,
  is_some, not, ◌&&◌,
}
use agentic_mcp_teaming.Dict
use agentic_mcp_teaming.Platform.{Platform}
use agentic_mcp_teaming.SessionRegistry.{SessionRegistry}
use agentic_mcp_teaming.SessionRegistry.Register.{ok, RegisterParams, RegisterResult, register}
use agentic_mcp_teaming.SessionRegistry.Rollback.{snapshot_entry, restore_entry}
use agentic_mcp_teaming.SessionRegistry.Rollback.Laws.{restore_undoes_register}
use agentic_mcp_teaming.SessionRegistry.Register.Entries.{Result-cases}
use agentic_mcp_teaming.SessionRegistry.Disk.{registry_json}
use agentic_mcp_teaming.SessionRegistry.Invariant.{IsValid, register-IsValid, restore_entry-IsValid}
use agentic_mcp_teaming.PeerBus.{
  Code, Reply, registered, error, PeerBusContext, register_session, Bus, Persisted, saved,
  failed_before_rename, failed_after_rename, persist, audited,
}
use agentic_mcp_teaming.PeerBus.Register.Asked.{AskedFor, resolved-KeyOf}
use agentic_mcp_teaming.PeerBus.Register.{
  RegisterSessionParams, parse_register, Resolved, key, rejected, resolve_auto_wake_key, is_owned,
  settle, code_of, register_params, register_locked, register_session_tool,
}

-- A call is refused with the registry untouched, or it registers the name and then depends on
-- what happens to the file.
abbrev pub Settled : Reply × Bus → Bus → Type 0
Settled out b =
    (code : Code) × (out.0 ≡ error code) × (out.1.registry ≡ b.registry) × (out.1.log ≡ b.log)

module _ (p : Platform) (now : ℕ) (outcome : Persisted) (ctx : PeerBusContext) (b : Bus)
    (q : RegisterSessionParams) (raw_token : String) where
  abbrev tool : Reply × Bus
  tool = register_session_tool p now outcome ctx b q raw_token

  abbrev pub b_logged : Bus
  b_logged = audited b (register_session q.name)

  abbrev pub Went : Type 0
  Went =
      (r : RegisterParams) × AskedFor ctx q r
      × (done : RegisterResult × SessionRegistry) × (register p now b.registry r raw_token
          ≡ ok done)
      × (tool ≡ settle p outcome b_logged (snapshot_entry b.registry q.name) q.name (ok done))

  Resolved-cases : (x : Resolved) → ((k : _) × (x ≡ key k)) ⊎ ((c : Code) × (x ≡ rejected c))
  Resolved-cases (key k) = inl (k, refl)
  Resolved-cases (rejected c) = inr (c, refl)

  pub register_tool-cases : Settled tool b ⊎ Went
  unfolding register_session_tool register_locked
  register_tool-cases = elim (Option-cases (parse_register q)) [
    | inr (c, bad) ↦ inl (c, rw bad refl, rw bad refl, rw bad refl)
    | inl fine ↦
        elim (Bool-cases
          (not (is_some ctx.pane_token) && is_owned (Dict.get b.registry.sessions q.name))) [
            | inl gated ↦ inl (
              Code.invalid_pane_token_missing,
              rw (fine, gated) refl,
              rw (fine, gated) refl,
              rw (fine, gated) refl,
            )
            | inr through ↦ elim (Resolved-cases (resolve_auto_wake_key ctx q.auto_wake_key)) [
              | inr (c, no_key) ↦ inl (
                c,
                rw (fine, through, no_key) refl,
                rw (fine, through, no_key) refl,
                rw (fine, through, no_key) refl,
              )
              | inl (k, got) ↦
                  elim (Result-cases
                    (register p now b.registry (register_params ctx q k) raw_token)) [
                      | inl (done, e) ↦ inr (
                        register_params ctx q k,
                        (refl, refl, refl, refl, refl, resolved-KeyOf ctx q.auto_wake_key k got),
                        done,
                        e,
                        rw (fine, through, got, e) refl,
                      )
                      | inr (c, e) ↦ inl (
                        code_of c,
                        rw (fine, through, got, e) refl,
                        rw (fine, through, got, e) refl,
                        rw (fine, through, got, e) refl,
                      )
                    ]
            ]
          ]
  ]

  settle-error :
      (r : RegisterParams) (done : RegisterResult × SessionRegistry) (code : Code) (o : Persisted)
      → r.name ≡ q.name
      → IsValid b.registry
      → register p now b.registry r raw_token ≡ ok done
      → (settle p o b_logged (snapshot_entry b.registry q.name) q.name (ok done)).0 ≡ error code
      → (settle p o b_logged
          (snapshot_entry b.registry q.name)
          q.name
          (ok done)).1.registry.sessions
        ≡ b.registry.sessions
  unfolding persist
  settle-error r done code saved same v e failed = cc
  settle-error r done code failed_before_rename same v e failed =
      subst
        (λ n. (restore_entry done.1 n (snapshot_entry b.registry n)).sessions ≡ b.registry.sessions)
        same (restore_undoes_register p now b.registry r raw_token v e)
  settle-error r done code failed_after_rename same v e failed =
      subst
        (λ n. (restore_entry done.1 n (snapshot_entry b.registry n)).sessions ≡ b.registry.sessions)
        same (restore_undoes_register p now b.registry r raw_token v e)

  -- A call that replies with an error leaves the sessions as they were, on a valid registry;
  -- this includes a registration that is rolled back because its file could not be written.
  pub register_tool_rolls_back :
      (code : Code)
      → IsValid b.registry
      → tool.0 ≡ error code
      → tool.1.registry.sessions ≡ b.registry.sessions
  register_tool_rolls_back code v failed = elim register_tool-cases [
    | inl (_, _, same, _) ↦ rw same refl
    | inr (r, same, done, e, went) ↦
        rw went (settle-error r done code outcome same.0 v e (sym (ap (λ t. t.0) went) ∙ failed))
  ]

  settle-registered :
      (done : RegisterResult × SessionRegistry) (name token at : String) (o : Persisted)
      → (settle p o b_logged (snapshot_entry b.registry q.name) q.name (ok done)).0
        ≡ registered name token at
      → (o ≡ saved)
        × ((settle p o b_logged (snapshot_entry b.registry q.name) q.name (ok done)).1.registry
            ≡ done.1)
        × ((settle p o b_logged (snapshot_entry b.registry q.name) q.name (ok done)).1.disk
            ≡ some (p.stringify (registry_json done.1)))
        × (name ≡ done.0.entry.name)
        × (token ≡ done.0.raw_token)
  unfolding persist
  settle-registered done name token at saved h = (refl, refl, refl, ground arith, ground arith)
  settle-registered done name token at failed_before_rename h = cc
  settle-registered done name token at failed_after_rename h = cc

  -- A call that replies with a registration did what `register` does for the name, the surface, the
  -- workspace and the wake key that were asked for, with the connection's pane token and the time to live
  -- of the context; it hands out the token that was drawn, and the file holds the new registry. The wake
  -- key is none if none was asked for, the operator's default for null, or one that the operator allows.
  pub register_tool_registers :
      (name token at : String)
      → tool.0 ≡ registered name token at
      → (r : RegisterParams) × AskedFor ctx q r
        × (done : RegisterResult × SessionRegistry) × (register p now b.registry r raw_token
            ≡ ok done)
        × (tool.1.registry ≡ done.1)
        × (tool.1.disk ≡ some (p.stringify (registry_json tool.1.registry)))
        × (token ≡ done.0.raw_token)
        × (name ≡ done.0.entry.name)
  register_tool_registers name token at success = elim register_tool-cases [
    | inl (_, failed, _, _) ↦ cc
    | inr (r, same, done, e, went) ↦
        let (_, reg, disk, n, t) =
          settle-registered done name token at outcome (sym (ap (λ t. t.0) went) ∙ success) in
        (
          r,
          same,
          done,
          e,
          rw went reg,
          rw went (disk ∙ ap (λ x. some (p.stringify (registry_json x))) (sym reg)),
          t,
          n,
        )
  ]

  -- Every call keeps the registry valid, whatever its reply and whatever happens to the file.
  pub register_tool-IsValid : IsValid b.registry → IsValid tool.1.registry
  register_tool-IsValid v = elim register_tool-cases [
    | inl (_, _, same, _) ↦ rw same v
    | inr (r, same, done, e, went) ↦
        let v' = register-IsValid p now b.registry r raw_token v e in rw went (kept done outcome v')
  ]
    where
      kept :
          (done : RegisterResult × SessionRegistry) (o : Persisted)
          → IsValid done.1
          → IsValid
              (settle p o b_logged (snapshot_entry b.registry q.name) q.name (ok done)).1.registry
      kept done saved v' = unfold persist in v'
      kept done failed_before_rename v' =
          unfold persist in restore_entry-IsValid b.registry done.1 q.name v v'
      kept done failed_after_rename v' =
          unfold persist in restore_entry-IsValid b.registry done.1 q.name v v'

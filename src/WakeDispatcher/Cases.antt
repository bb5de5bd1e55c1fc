-- ===== src/WakeDispatcher/Cases.antt =====
-- The ways in which a call of `maybeDispatch` can end (src/core/wake-dispatcher.ts).
use agentic_mcp_teaming.Common.{
  ℕ, String, ◌≡◌, refl, ap, ◌∙◌, ◌⊎◌, inl, inr, true, false, Option, none, some, [], ◌∷◌,
  Bool-cases, get_or, str_eq,
}
use agentic_mcp_teaming.Dict
use agentic_mcp_teaming.SessionRegistry.{SessionEntry, SessionRegistry, WakeState}
use agentic_mcp_teaming.SessionRegistry.Wake.{
  suppressed, count_up, in_window, try_consume_wake_window,
}
use agentic_mcp_teaming.SessionRegistry.Wake.Laws.{
  wake_state, try_consume_wake_window_lem, increment_wake_counter_lem, try_consume-other,
  increment-other,
}
use agentic_mcp_teaming.WakeDispatcher.{
  SuppressReason, Probe, WakeDispatcherOptions, wake_suppressed, wake_dispatched, Outcome,
  counter_of, account, probe_of, send_wake, dispatch_probed, dispatch_command, dispatch_key,
  dispatch_entry, maybe_dispatch,
}

-- The counters and the time of the last dispatch after a call that was accounted for.
abbrev pub at_time : WakeState → Option ℕ → WakeState
at_time s t = record s { last_dispatched_at = t }

module _ (o : WakeDispatcherOptions) (now : ℕ) (r : SessionRegistry)
    (target message_id : String) where
  abbrev pub before : WakeState
  before = wake_state r target

  -- Nothing is done; or there is one audit entry and one counter goes up, and no key is sent; or
  -- the keys are sent after every gate.
  abbrev pub Ignored : Outcome → Type 0
  Ignored out = (out.registry ≡ r) × (out.audit ≡ []) × (out.argvs ≡ [])

  -- The wake states of all other sessions are as they were.
  abbrev pub OthersKept : SessionRegistry → Type 0
  OthersKept r' =
      (other : String) → str_eq target other ≡ false → wake_state r' other ≡ wake_state r other

  abbrev pub Suppressed : Outcome → Type 0
  Suppressed out =
      (key : String) × (reason : SuppressReason) × (seen : Option String) × (out.audit
        ≡ wake_suppressed target key message_id reason seen ∷ [])
      × (out.argvs ≡ [])
      × (wake_state out.registry target ≡ count_up suppressed before)
      × (out.registry.sessions ≡ r.sessions)
      × OthersKept out.registry

  abbrev pub Woken : Outcome → Type 0
  Woken out =
      (session : SessionEntry) × (key : String) × (command : String) × (Dict.get r.sessions target
        ≡ some session)
      × (session.auto_wake_key ≡ some key)
      × (Dict.get o.allowed_commands key ≡ some command)
      × ((probe_of (o.backend.is_pane_state_safe (get_or session.wake_target target))).safe ≡ true)
      × (in_window now o.debounce_ms before.last_dispatched_at ≡ false)
      × (let done = o.backend.send_keys (get_or session.wake_target target) command in
          let entry = wake_dispatched target key message_id done.error in
          (out.audit ≡ entry ∷ [])
          × (out.argvs ≡ done.argvs)
          × (wake_state out.registry target
              ≡ count_up (counter_of entry) (at_time before (some now)))
          × (out.registry.sessions ≡ r.sessions)
          × OthersKept out.registry)

  account-Suppressed :
      (r' : SessionRegistry) (key : String) (reason : SuppressReason) (seen : Option String)
      → wake_state r' target ≡ before
      → r'.sessions ≡ r.sessions
      → OthersKept r'
      → Suppressed (account r' target (wake_suppressed target key message_id reason seen) [])
  unfolding account
  account-Suppressed r' key reason seen same sessions others =
      let counted = increment_wake_counter_lem r' target suppressed in
      (
        key,
        reason,
        seen,
        refl,
        refl,
        counted.0 ∙ ap (count_up suppressed) same,
        counted.1 ∙ sessions,
        λ other apart. increment-other r' target other apart suppressed ∙ others other apart,
      )

  probed-cases :
      (session : SessionEntry) (key command : String) (probe : Probe)
      → Dict.get r.sessions target ≡ some session
      → session.auto_wake_key ≡ some key
      → Dict.get o.allowed_commands key ≡ some command
      → probe_of (o.backend.is_pane_state_safe (get_or session.wake_target target)) ≡ probe
      → let out =
          dispatch_probed o now r target message_id key
            (get_or session.wake_target target)
            command
            probe in
        Suppressed out ⊎ Woken out
  unfolding dispatch_probed send_wake account
  probed-cases session key command probe there opted allowed probed =
      let done = o.backend.send_keys (get_or session.wake_target target) command in
      let entry = wake_dispatched target key message_id done.error in
      let took = try_consume_wake_window_lem r target now o.debounce_ms in
      elim (Bool-cases probe.safe) [
        | inr unsafe ↦ rw unsafe (inl (account-Suppressed r _ _ _ refl refl (λ other apart. refl)))
        | inl safe ↦ elim (Bool-cases (in_window now o.debounce_ms before.last_dispatched_at)) [
          | inl within ↦
              rw (safe, took.0, within)
                (inl (
                  account-Suppressed _ _ _ _ (took.1 ∙ rw within refl) took.2
                    (λ other apart. try_consume-other r target other apart now o.debounce_ms)))
          | inr over ↦
              let r' = (try_consume_wake_window r target now o.debounce_ms).1 in
              let counted = increment_wake_counter_lem r' target (counter_of entry) in
              rw (safe, took.0, over)
                (inr (
                  session,
                  key,
                  command,
                  there,
                  opted,
                  allowed,
                  rw probed safe,
                  refl,
                  (
                    refl,
                    refl,
                    counted.0 ∙ ap (count_up (counter_of entry)) (took.1 ∙ rw over refl),
                    counted.1 ∙ took.2,
                    λ other apart.
                        increment-other r' target other apart (counter_of entry)
                        ∙ try_consume-other r target other apart now o.debounce_ms,
                  ),
                ))
        ]
      ]

  command-cases :
      (session : SessionEntry) (key : String) (command : Option String)
      → Dict.get r.sessions target ≡ some session
      → session.auto_wake_key ≡ some key
      → Dict.get o.allowed_commands key ≡ command
      → let out =
          dispatch_command o now r target message_id key
            (get_or session.wake_target target)
            command in
        Suppressed out ⊎ Woken out
  command-cases session key none there opted allowed =
      inl (account-Suppressed r _ _ _ refl refl (λ other apart. refl))
  command-cases session key (some command) there opted allowed =
      probed-cases session key command _ there opted allowed refl

  key-cases :
      (session : SessionEntry) (key : Option String)
      → Dict.get r.sessions target ≡ some session
      → session.auto_wake_key ≡ key
      → let out = dispatch_key o now r target message_id session key in
        Ignored out ⊎ (Suppressed out ⊎ Woken out)
  key-cases session none there opted = inl (refl, refl, refl)
  key-cases session (some key) there opted =
      inr (command-cases session key (Dict.get o.allowed_commands key) there opted refl)

  entry-cases :
      (session : Option SessionEntry)
      → Dict.get r.sessions target ≡ session
      → let out = dispatch_entry o now r target message_id session in
        Ignored out ⊎ (Suppressed out ⊎ Woken out)
  entry-cases none there = inl (refl, refl, refl)
  entry-cases (some session) there = key-cases session session.auto_wake_key there refl

  abbrev pub out : Outcome
  out = maybe_dispatch o now r target message_id

  pub dispatch-cases : Ignored out ⊎ (Suppressed out ⊎ Woken out)
  unfolding maybe_dispatch
  dispatch-cases = entry-cases (Dict.get r.sessions target) refl

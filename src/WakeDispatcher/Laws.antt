-- ===== src/WakeDispatcher/Laws.antt =====
-- What one call of `maybeDispatch` does, and when it types (src/core/wake-dispatcher.ts).
use agentic_mcp_teaming.Common.{
  ℕ, String, ◌≡◌, ◌≢◌, refl, ap, ◌∙◌, ◌⊎◌, inl, inr, true, false, Option, none, some, [], ◌∷◌,
  get_or, is_some, str_eq, if◌then◌else◌,
}
use agentic_mcp_teaming.Dict
use agentic_mcp_teaming.SessionRegistry.{SessionEntry, SessionRegistry, WakeState}
use agentic_mcp_teaming.SessionRegistry.Wake.{
  Counter, dispatched, suppressed, failed, count_up, in_window,
}
use agentic_mcp_teaming.SessionRegistry.Wake.Laws.{wake_state}
use agentic_mcp_teaming.WakeDispatcher.{
  SuppressReason, WakeBackendError, WakeDispatcherOptions, wake_suppressed, wake_dispatched,
  Outcome, counter_of, probe_of, maybe_dispatch,
}
use agentic_mcp_teaming.WakeDispatcher.Cases.{at_time, dispatch-cases}

module _ (o : WakeDispatcherOptions) (now : ℕ) (r : SessionRegistry)
    (target message_id : String) where
  abbrev before : WakeState
  before = wake_state r target

  abbrev out : Outcome
  out = maybe_dispatch o now r target message_id

  -- A call does nothing; or it writes one audit entry, for this session and message, and counts it once.
  -- An entry that it was suppressed is counted as suppressed, and no key is sent; otherwise keys are sent
  -- to the session's target, the entry has their error and is counted as dispatched or failed by it, and
  -- the time of the last dispatch is now. The sessions stay, and so do the wake states of the others.
  pub wake_accounted :
      (other : String)
      → str_eq target other ≡ false
      → ((out.registry ≡ r) × (out.audit ≡ []) × (out.argvs ≡ []))
        ⊎ ((out.registry.sessions ≡ r.sessions)
            × (wake_state out.registry other ≡ wake_state r other)
            × (((key : String) × (reason : SuppressReason) × (seen : Option String) × (out.audit
                    ≡ wake_suppressed target key message_id reason seen ∷ [])
                  × (out.argvs ≡ [])
                  × (wake_state out.registry target ≡ count_up suppressed (wake_state r target)))
                ⊎ ((session : SessionEntry) × (key : String) × (command : String) × (Dict.get
                        r.sessions target
                      ≡ some session)
                    × (session.auto_wake_key ≡ some key)
                    × (Dict.get o.allowed_commands key ≡ some command)
                    × (let done = o.backend.send_keys (get_or session.wake_target target) command in
                        (out.audit ≡ wake_dispatched target key message_id done.error ∷ [])
                        × (out.argvs ≡ done.argvs)
                        × (wake_state out.registry target
                            ≡ count_up
                                (if is_some done.error then failed else dispatched)
                                (at_time (wake_state r target) (some now)))))))
  wake_accounted other apart = elim (dispatch-cases o now r target message_id) [
    | inl nothing ↦ inl nothing
    | inr (inl (key, reason, seen, audit, quiet, counted, same, others)) ↦
        inr (same, others other apart, inl (key, reason, seen, audit, quiet, counted))
    | inr
          (inr (
            session,
            key,
            command,
            there,
            opted,
            allowed,
            _,
            _,
            (audit, sent, counted, same, others),
          )) ↦
        let done = o.backend.send_keys (get_or session.wake_target target) command in
        inr (
          same,
          others other apart,
          inr (
            session,
            key,
            command,
            there,
            opted,
            allowed,
            (
              audit,
              sent,
              counted
                  ∙ ap (λ c. count_up c (at_time before (some now)))
                      (counter_by_error key done.error),
            ),
          ),
        )
  ]
    where
      counter_by_error :
          (key : String) (e : Option WakeBackendError)
          → counter_of (wake_dispatched target key message_id e)
            ≡ (if is_some e then failed else dispatched)
      counter_by_error key none = refl
      counter_by_error key (some e) = refl

  -- Keys are sent only for a session that opted in, with the command that the operator allowed
  -- under its key, at its own target, after a probe that found the pane safe, and outside the
  -- debounce window, which starts then.
  pub wake_gated :
      out.argvs ≢ []
      → (session : SessionEntry) × (key : String) × (command : String) × (Dict.get r.sessions target
          ≡ some session)
        × (session.auto_wake_key ≡ some key)
        × (Dict.get o.allowed_commands key ≡ some command)
        × ((probe_of (o.backend.is_pane_state_safe (get_or session.wake_target target))).safe
            ≡ true)
        × (in_window now o.debounce_ms (wake_state r target).last_dispatched_at ≡ false)
        × (out.argvs ≡ (o.backend.send_keys (get_or session.wake_target target) command).argvs)
        × ((wake_state out.registry target).last_dispatched_at ≡ some now)
  wake_gated typed = elim (dispatch-cases o now r target message_id) [
    | inl (_, _, quiet) ↦ absurd (typed quiet)
    | inr (inl (_, _, _, _, quiet, _, _, _)) ↦ absurd (typed quiet)
    | inr
          (inr
            (session, key, command, there, opted, allowed, safe, over, (_, sent, counted, _, _))) ↦
        (
          session,
          key,
          command,
          there,
          opted,
          allowed,
          safe,
          over,
          sent,
          ap (λ s. s.last_dispatched_at) counted
              ∙ last-count_up (counter_of (wake_dispatched target key message_id _))
                  (at_time before (some now)),
        )
  ]
    where
      last-count_up :
          (c : Counter) (s : WakeState) → (count_up c s).last_dispatched_at ≡ s.last_dispatched_at
      last-count_up Counter.dispatched s = refl
      last-count_up Counter.suppressed s = refl
      last-count_up Counter.failed s = refl

-- ===== src/WakeDispatcher/Backoff.antt =====
-- When the dispatcher does not type (src/core/wake-dispatcher.ts), by the window and by the backend
-- (src/core/wake-backends).
use agentic_mcp_teaming.Common.{
  ℕ, ◌+◌, ◌<◌, String, ◌≡◌, ◌≢◌, sym, ap, ◌∙◌, inl, inr, true, false, some, List, [], ◌∷◌, arith,
  lt→ltb, get_or, subst, All, str_eq, eq_iff, Bool-cases,
}
use agentic_mcp_teaming.Dict
use agentic_mcp_teaming.Patterns.{session_name_regex}
use agentic_mcp_teaming.SessionRegistry.{SessionEntry, SessionRegistry}
use agentic_mcp_teaming.SessionRegistry.Wake.Laws.{wake_state}
use agentic_mcp_teaming.WakeDispatcher.{WakeDispatcherOptions, Outcome, probe_of, maybe_dispatch}
use agentic_mcp_teaming.WakeDispatcher.Backends.{
  Exec, cmux_wake_backend, cmux_is_pane_state_safe, tmux_wake_backend, tmux_is_pane_state_safe,
}
use mathlib.Core.Option.{some-injective}
use agentic_mcp_teaming.WakeDispatcher.Cases.{dispatch-cases}
use agentic_mcp_teaming.WakeDispatcher.Laws.{wake_gated}

-- A call of the dispatcher: for which session and message, and when.
pub record WakeCall : Type 0 where
  pub options : WakeDispatcherOptions
  pub time : ℕ
  pub name : String
  pub message_id : String

abbrev pub called : WakeCall → SessionRegistry → Outcome
called c r = maybe_dispatch c.options c.time r c.name c.message_id

-- The registry after calls, the first one first.
unfoldable pub dispatch_all : List WakeCall → SessionRegistry → SessionRegistry
dispatch_all [] r = r
dispatch_all (c ∷ cs) r = dispatch_all cs (called c r).registry

-- A call with this debounce time, before it is over.
abbrev pub Early : ℕ → ℕ → WakeCall → Type 0
Early debounce_ms now c = (c.options.debounce_ms ≡ debounce_ms) × (c.time < now + debounce_ms)

module _ (debounce_ms now : ℕ) (target : String) where
  abbrev Warm : SessionRegistry → Type 0
  Warm r = (wake_state r target).last_dispatched_at ≡ some now

  called-quiet :
      (c : WakeCall) (r : SessionRegistry)
      → Early debounce_ms now c
      → c.name ≡ target
      → Warm r
      → (called c r).argvs ≡ []
  called-quiet c r early named warm =
      let here : (wake_state r c.name).last_dispatched_at ≡ some now =
        ap (λ n. (wake_state r n).last_dispatched_at) named ∙ warm in
      elim (dispatch-cases c.options c.time r c.name c.message_id) [
        | inl (_, _, quiet) ↦ quiet
        | inr (inl (_, _, _, _, quiet, _, _, _)) ↦ quiet
        | inr (inr (_, _, _, _, _, _, _, over, _)) ↦
            absurd (ground (arith, here, over, early, lt→ltb c.time (now + debounce_ms) early.1))
      ]

  called-Warm :
      (c : WakeCall) (r : SessionRegistry)
      → Early debounce_ms now c
      → Warm r
      → Warm (called c r).registry
  called-Warm c r early warm = elim (dispatch-cases c.options c.time r c.name c.message_id) [
    | inl (same, _, _) ↦ ap (λ x. (wake_state x target).last_dispatched_at) same ∙ warm
    | inr (inl (_, _, _, _, _, counted, _, others)) ↦ elim (Bool-cases (str_eq c.name target)) [
      | inl e ↦
          let named = (eq_iff c.name target).0 e in
          ap (λ n. (wake_state (called c r).registry n).last_dispatched_at) (sym named)
          ∙ ap (λ s. s.last_dispatched_at) counted
          ∙ ap (λ n. (wake_state r n).last_dispatched_at) named
          ∙ warm
      | inr e ↦ ap (λ s. s.last_dispatched_at) (others target e) ∙ warm
    ]
    | inr (inr (_, _, _, _, _, _, _, over, (_, _, _, _, others))) ↦
        elim (Bool-cases (str_eq c.name target)) [
          | inl e ↦
              let here : (wake_state r c.name).last_dispatched_at ≡ some now =
                ap (λ n. (wake_state r n).last_dispatched_at) ((eq_iff c.name target).0 e) ∙ warm in
              absurd (ground (arith, here, over, early, lt→ltb c.time (now + debounce_ms) early.1))
          | inr e ↦ ap (λ s. s.last_dispatched_at) (others target e) ∙ warm
        ]
  ]

  dispatch_all-Warm :
      (cs : List WakeCall) (r : SessionRegistry)
      → All (Early debounce_ms now) cs
      → Warm r
      → Warm (dispatch_all cs r)
  unfolding dispatch_all
  dispatch_all-Warm [] r early warm = warm
  dispatch_all-Warm (c ∷ cs) r early warm =
      dispatch_all-Warm cs (called c r).registry early.1 (called-Warm c r early.0 warm)

-- After a call that typed, and any calls of the dispatcher for any sessions in between, a call for the
-- session types nothing if all of them come before the debounce time is over, with the same debounce time,
-- whatever the backends answer.
pub wake_debounced :
    (first later : WakeCall) (between : List WakeCall) (r : SessionRegistry)
    → (called first r).argvs ≢ []
    → All (Early first.options.debounce_ms first.time) between
    → Early first.options.debounce_ms first.time later
    → later.name ≡ first.name
    → (called later (dispatch_all between (called first r).registry)).argvs ≡ []
wake_debounced first later between r typed early early_later same =
    let (_, _, _, _, _, _, _, _, _, last) =
      wake_gated first.options first.time r first.name first.message_id typed in
    called-quiet first.options.debounce_ms first.time first.name later _ early_later same
      (dispatch_all-Warm first.options.debounce_ms first.time first.name between _ early last)

-- With the cmux backend no program is ever run to wake a session: its probe is disabled.
pub cmux_never_types :
    (exec : List String → Exec) (o : WakeDispatcherOptions) (now : ℕ) (r : SessionRegistry)
    (target message_id : String)
    → o.backend ≡ cmux_wake_backend exec
    → (maybe_dispatch o now r target message_id).argvs ≡ []
unfolding cmux_wake_backend cmux_is_pane_state_safe
cmux_never_types exec o now r target message_id cmux =
    elim (dispatch-cases o now r target message_id) [
      | inl (_, _, quiet) ↦ quiet
      | inr (inl (_, _, _, _, quiet, _, _, _)) ↦ quiet
      | inr (inr (session, _, _, _, _, _, safe, _, _)) ↦ absurd (
          unsafe (
            ap (λ b. (probe_of (b.is_pane_state_safe (get_or session.wake_target target))).safe)
              (sym cmux)
            ∙ safe))
    ]
  where
    unsafe : false ≡ true → ⊥
    unsafe h = cc

-- With the tmux backend a session whose wake target is no session name is never woken, even if a pane
-- of the session's own name is there and safe: the dispatcher probes the surface, not the name.
pub tmux_skips_surfaces :
    (exec : List String → Exec) (allowed_pane_commands : List String) (o : WakeDispatcherOptions)
    (now : ℕ) (r : SessionRegistry) (target message_id surface : String) (session : SessionEntry)
    → o.backend ≡ tmux_wake_backend exec allowed_pane_commands
    → Dict.get r.sessions target ≡ some session
    → session.wake_target ≡ some surface
    → session_name_regex surface ≡ false
    → (maybe_dispatch o now r target message_id).argvs ≡ []
unfolding tmux_wake_backend tmux_is_pane_state_safe
tmux_skips_surfaces exec allowed_pane_commands o now r target message_id surface session tmux there
      at_surface no_name =
    elim (dispatch-cases o now r target message_id) [
      | inl (_, _, quiet) ↦ quiet
      | inr (inl (_, _, _, _, quiet, _, _, _)) ↦ quiet
      | inr (inr (found, _, _, there', _, _, safe, _, _)) ↦
          let same : found.wake_target ≡ some surface =
            ap (λ e. e.wake_target) (some-injective _ _ (sym there' ∙ there)) ∙ at_surface in
          let at_found : get_or found.wake_target target ≡ surface =
            ap (λ t. get_or t target) same in
          let probed =
            sym (
              ap (λ b. (probe_of (b.is_pane_state_safe (get_or found.wake_target target))).safe)
                tmux)
            ∙ safe in
          absurd (
            unsafe surface no_name (
              subst
                (λ t. (probe_of (tmux_is_pane_state_safe exec allowed_pane_commands t)).safe ≡ true)
                at_found probed))
    ]
  where
    unsafe :
        (t : String)
        → session_name_regex t ≡ false
        → (probe_of (tmux_is_pane_state_safe exec allowed_pane_commands t)).safe ≡ true
        → ⊥
    unsafe t other h = ground (arith, other, h)

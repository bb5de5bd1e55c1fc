-- ===== src/Tests/Waking.antt =====
-- The theorems on `maybeDispatch` (src/core/wake-dispatcher.ts) on a session that opted in.
use agentic_mcp_teaming.Common.{
  ℕ, String, ◌≡◌, ◌≢◌, ◌⊎◌, refl, true, false, Option, some, List, [], ◌∷◌, get_or, is_some,
  if◌then◌else◌, arith,
}
use agentic_mcp_teaming.Dict
use agentic_mcp_teaming.Patterns.{session_name_regex}
use agentic_mcp_teaming.SessionRegistry.{SessionEntry, SessionRegistry}
use agentic_mcp_teaming.SessionRegistry.Wake.{count_up, in_window, dispatched, suppressed, failed}
use agentic_mcp_teaming.SessionRegistry.Wake.Laws.{wake_state}
use agentic_mcp_teaming.WakeDispatcher.{
  WakeBackend, WakeDispatcherOptions, SuppressReason, wake_suppressed, wake_dispatched, Outcome,
  probe_of, maybe_dispatch,
}
use agentic_mcp_teaming.WakeDispatcher.Backends.{Exec, stdout, tmux_wake_backend}
use agentic_mcp_teaming.WakeDispatcher.Cases.{at_time}
use agentic_mcp_teaming.WakeDispatcher.Laws.{wake_accounted, wake_gated}
use agentic_mcp_teaming.WakeDispatcher.Backoff.{
  WakeCall, called, dispatch_all, wake_debounced, tmux_skips_surfaces,
}
use agentic_mcp_teaming.Tests.{two_sessions, owned_by}

-- Every program prints the name of a shell.
abbrev shell : List String → Exec
shell argv = stdout "zsh"

abbrev options : WakeBackend → WakeDispatcherOptions
options backend = record { backend = backend; allowed_commands = ("k", "go") ∷ []; debounce_ms = 5 }

abbrev tmux : WakeDispatcherOptions
tmux = options (tmux_wake_backend shell ("zsh" ∷ []))

abbrev woken : Outcome
woken = maybe_dispatch tmux 10 two_sessions "ann" "m1"

nonempty : {x : List String} {xs : List (List String)} → x ∷ xs ≢ []
nonempty h = cc

wake_accounted_example :
    ((woken.registry ≡ two_sessions) × (woken.audit ≡ []) × (woken.argvs ≡ []))
    ⊎ ((woken.registry.sessions ≡ two_sessions.sessions)
        × (wake_state woken.registry "robert" ≡ wake_state two_sessions "robert")
        × (((key : String) × (reason : SuppressReason) × (seen : Option String) × (woken.audit
                ≡ wake_suppressed "ann" key "m1" reason seen ∷ [])
              × (woken.argvs ≡ [])
              × (wake_state woken.registry "ann"
                  ≡ count_up suppressed (wake_state two_sessions "ann")))
            ⊎ ((session : SessionEntry) × (key : String) × (command : String) × (Dict.get
                    two_sessions.sessions "ann"
                  ≡ some session)
                × (session.auto_wake_key ≡ some key)
                × (Dict.get tmux.allowed_commands key ≡ some command)
                × (let done = tmux.backend.send_keys (get_or session.wake_target "ann") command in
                    (woken.audit ≡ wake_dispatched "ann" key "m1" done.error ∷ [])
                    × (woken.argvs ≡ done.argvs)
                    × (wake_state woken.registry "ann"
                        ≡ count_up
                            (if is_some done.error then failed else dispatched)
                            (at_time (wake_state two_sessions "ann") (some 10)))))))
wake_accounted_example = wake_accounted tmux 10 two_sessions "ann" "m1" "robert" refl

wake_gated_example :
    (session : SessionEntry) × (key : String) × (command : String) × (Dict.get two_sessions.sessions
        "ann"
      ≡ some session)
    × (session.auto_wake_key ≡ some key)
    × (Dict.get tmux.allowed_commands key ≡ some command)
    × ((probe_of (tmux.backend.is_pane_state_safe (get_or session.wake_target "ann"))).safe ≡ true)
    × (in_window 10 5 (wake_state two_sessions "ann").last_dispatched_at ≡ false)
    × (woken.argvs ≡ (tmux.backend.send_keys (get_or session.wake_target "ann") command).argvs)
    × ((wake_state woken.registry "ann").last_dispatched_at ≡ some 10)
unfolding maybe_dispatch Dict.get tmux_wake_backend
    agentic_mcp_teaming.WakeDispatcher.Backends.tmux_is_pane_state_safe session_name_regex
    agentic_mcp_teaming.WakeDispatcher.Backends.tmux_send_keys
wake_gated_example = wake_gated tmux 10 two_sessions "ann" "m1" nonempty

abbrev call_at : ℕ → String → String → WakeCall
call_at time name message_id = record {
  options = tmux;
  time = time;
  name = name;
  message_id = message_id;
}

-- Calls for both sessions come between.
wake_debounced_example :
    (called
      (call_at 14 "ann" "m4")
      (dispatch_all (call_at 12 "ann" "m2" ∷ call_at 13 "robert" "m3" ∷ []) woken.registry)).argvs
    ≡ []
unfolding maybe_dispatch Dict.get tmux_wake_backend
    agentic_mcp_teaming.WakeDispatcher.Backends.tmux_is_pane_state_safe session_name_regex
    agentic_mcp_teaming.WakeDispatcher.Backends.tmux_send_keys
wake_debounced_example =
    wake_debounced (call_at 10 "ann" "m1") (call_at 14 "ann" "m4")
      (call_at 12 "ann" "m2" ∷ call_at 13 "robert" "m3" ∷ []) two_sessions nonempty
      ((refl, omega arith), ((refl, omega arith), tt)) (refl, omega arith) refl

abbrev at_surface : SessionEntry
at_surface = record (owned_by "ann" "secret" []) {
  cmux_surface_id = some "surface:3";
  wake_target = some "surface:3";
}

abbrev on_surface : SessionRegistry
on_surface = record { sessions = ("ann", at_surface) ∷ []; wake_states = [] }

tmux_skips_surfaces_example : (maybe_dispatch tmux 10 on_surface "ann" "m1").argvs ≡ []
unfolding Dict.get session_name_regex
tmux_skips_surfaces_example =
    tmux_skips_surfaces shell ("zsh" ∷ []) tmux 10 on_surface "ann" "m1" "surface:3" at_surface refl
      refl refl refl

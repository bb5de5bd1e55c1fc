-- ===== src/WakeDispatcher/Backends.antt =====
-- The tmux and the cmux backend (src/core/wake-backends/tmux.ts, src/core/wake-backends/cmux.ts).
-- `execFile` is a parameter: an argument list gives the output, or the error of the child process.
use agentic_mcp_teaming.Common.{
  ℕ, String, false, not, Option, none, some, List, [], ◌∷◌, contains, if◌then◌else◌,
}
use agentic_mcp_teaming.Patterns.{session_name_regex, cmux_surface_id_regex}
use agentic_mcp_teaming.WakeDispatcher.{
  Probe, Phase, type_phase, enter_phase, WakeBackendError, Sent, WakeBackend, probe_failed_sentinel,
  probe_disabled,
}
use agentic_mcp_teaming.Text.{trim, is_empty}

pub data Exec : Type 0 where
  stdout : String → Exec
  exited : (exit_code : Option ℕ) (signal : Option String) → Exec

abbrev pub exec_failure : Exec → Phase → Option WakeBackendError
exec_failure (stdout s) phase = none
exec_failure (exited exit_code signal) phase =
    some (record { exit_code = exit_code; signal = signal; failure_phase = some phase })

abbrev rejected : Sent
rejected = record {
  argvs = [];
  error = some (record { exit_code = none; signal = none; failure_phase = none });
}

abbrev after_type : List String → Option WakeBackendError → List String → Exec → Sent
after_type typed (some e) entered result = record { argvs = typed ∷ []; error = some e }
after_type typed none entered result = record {
  argvs = typed ∷ entered ∷ [];
  error = exec_failure result enter_phase;
}

-- The literal text first; Enter only if that worked.
unfoldable pub type_then_enter : (List String → Exec) → List String → List String → Sent
type_then_enter exec typed entered =
    after_type typed (exec_failure (exec typed) type_phase) entered (exec entered)

abbrev tmux_probed : List String → Exec → Probe
tmux_probed allowed_pane_commands (stdout s) = record {
  safe = contains allowed_pane_commands (trim s);
  current_command = trim s;
  suppress_reason = none;
}
tmux_probed allowed_pane_commands (exited e s) = record {
  safe = false;
  current_command = probe_failed_sentinel;
  suppress_reason = none;
}

unfoldable pub tmux_is_pane_state_safe : (List String → Exec) → List String → String → Option Probe
unfolding contains trim
tmux_is_pane_state_safe exec allowed_pane_commands target =
    if not (session_name_regex target)
    then some
        (record { safe = false; current_command = probe_failed_sentinel; suppress_reason = none })
    else some (
        tmux_probed allowed_pane_commands (
          exec
            ("tmux" ∷ "display-message" ∷ "-p" ∷ "-t" ∷ target ∷ "#{pane_current_command}" ∷ [])))

unfoldable pub tmux_send_keys : (List String → Exec) → String → String → Sent
unfolding trim type_then_enter
tmux_send_keys exec target command =
    if not (session_name_regex target)
    then rejected
    else if is_empty (trim command)
    then rejected
    else type_then_enter exec ("tmux" ∷ "send-keys" ∷ "-l" ∷ "-t" ∷ target ∷ command ∷ [])
        ("tmux" ∷ "send-keys" ∷ "-t" ∷ target ∷ "Enter" ∷ [])

unfoldable pub tmux_wake_backend : (List String → Exec) → List String → WakeBackend
tmux_wake_backend exec allowed_pane_commands = record {
  is_pane_state_safe = tmux_is_pane_state_safe exec allowed_pane_commands;
  send_keys = tmux_send_keys exec;
}

-- The probe of cmux is disabled.
unfoldable pub cmux_is_pane_state_safe : String → Option Probe
cmux_is_pane_state_safe target = some (record {
  safe = false;
  current_command = "<probe_disabled>";
  suppress_reason = some probe_disabled;
})

unfoldable pub cmux_send_keys : (List String → Exec) → String → String → Sent
unfolding trim type_then_enter
cmux_send_keys exec target command =
    if not (cmux_surface_id_regex target)
    then rejected
    else if is_empty (trim command)
    then rejected
    else type_then_enter exec ("cmux" ∷ "send-surface" ∷ "--surface" ∷ target ∷ command ∷ [])
        ("cmux" ∷ "send-key-surface" ∷ "--surface" ∷ target ∷ "enter" ∷ [])

unfoldable pub cmux_wake_backend : (List String → Exec) → WakeBackend
unfolding cmux_is_pane_state_safe
cmux_wake_backend exec = record {
  is_pane_state_safe = cmux_is_pane_state_safe;
  send_keys = cmux_send_keys exec;
}

-- ===== src/WakeDispatcher.antt =====
-- The wake dispatcher (src/core/wake-dispatcher.ts) and its interface to a backend
-- (src/core/wake-backend.ts). One call is one step here: the probe, the check of the window and the
-- keystrokes follow each other with no other call in between. The audit sink is taken not to throw.
pub mod Texts
pub mod Backends
pub mod Cases
pub mod Laws
pub mod Backoff
use agentic_mcp_teaming.Common.{
  ℕ, String, Bool, false, not, Option, none, some, List, [], ◌∷◌, get_or, if◌then◌else◌,
}
use agentic_mcp_teaming.Dict.{Dict}
use agentic_mcp_teaming.Dict
use agentic_mcp_teaming.SessionRegistry.{SessionEntry, SessionRegistry}
use agentic_mcp_teaming.SessionRegistry.Wake.{
  Counter, dispatched, suppressed, failed, try_consume_wake_window, increment_wake_counter,
}
use Texts.{scrub_current_command}

pub data SuppressReason : Type 0 where
  debounce pane_state_unsafe key_no_longer_in_allowlist probe_disabled : SuppressReason

pub record Probe : Type 0 where
  pub safe : Bool
  pub current_command : String
  pub suppress_reason : Option SuppressReason

pub data Phase : Type 0 where
  type_phase enter_phase : Phase

pub record WakeBackendError : Type 0 where
  pub exit_code : Option ℕ
  pub signal : Option String
  pub failure_phase : Option Phase

-- What `sendKeys` does: the argument lists of the programs that it ran, and how it ended.
pub record Sent : Type 0 where
  pub argvs : List (List String)
  pub error : Option WakeBackendError

-- A probe that throws is `none`.
pub record WakeBackend : Type 0 where
  pub is_pane_state_safe : String → Option Probe
  pub send_keys : String → String → Sent

pub record WakeDispatcherOptions : Type 0 where
  pub backend : WakeBackend
  pub allowed_commands : Dict String
  pub debounce_ms : ℕ

pub data WakeAudit : Type 0 where
  wake_suppressed :
      (target command_key message_id : String) (reason : SuppressReason)
      (current_command : Option String)
      → WakeAudit
  wake_dispatched :
      (target command_key message_id : String) (error : Option WakeBackendError) → WakeAudit

pub record Outcome : Type 0 where
  pub registry : SessionRegistry
  pub audit : List WakeAudit
  pub argvs : List (List String)

abbrev pub counter_of : WakeAudit → Counter
counter_of (wake_suppressed t k i reason c) = suppressed
counter_of (wake_dispatched t k i none) = dispatched
counter_of (wake_dispatched t k i (some e)) = failed

-- One audit entry, and the counter that goes with it.
unfoldable pub account : SessionRegistry → String → WakeAudit → List (List String) → Outcome
unfolding increment_wake_counter
account r target entry argvs = record {
  registry = increment_wake_counter r target (counter_of entry);
  audit = entry ∷ [];
  argvs = argvs;
}

abbrev pub probe_failed_sentinel : String
probe_failed_sentinel = "<probe_failed>"

abbrev pub probe_of : Option Probe → Probe
probe_of none = record {
  safe = false;
  current_command = probe_failed_sentinel;
  suppress_reason = none;
}
probe_of (some probe) = probe

-- Once the window is taken, the keys are sent.
unfoldable pub send_wake :
    WakeDispatcherOptions → SessionRegistry → String → String → String → String → String → Outcome
unfolding account
send_wake o r target message_id key wake_target command =
    let done = o.backend.send_keys wake_target command in
    account r target (wake_dispatched target key message_id done.error) done.argvs

unfoldable pub dispatch_probed :
    WakeDispatcherOptions
    → ℕ
    → SessionRegistry
    → String
    → String
    → String
    → String
    → String
    → Probe
    → Outcome
unfolding account try_consume_wake_window send_wake scrub_current_command
dispatch_probed o now r target message_id key wake_target command probe =
    if not probe.safe
    then account r target
        (wake_suppressed target key message_id (get_or probe.suppress_reason pane_state_unsafe)
          (some (scrub_current_command probe.current_command)))
        []
    else let (took_window, r') = try_consume_wake_window r target now o.debounce_ms in
      if not took_window
      then account r' target (wake_suppressed target key message_id debounce none) []
      else send_wake o r' target message_id key wake_target command

abbrev dispatch_command :
    WakeDispatcherOptions
    → ℕ
    → SessionRegistry
    → String
    → String
    → String
    → String
    → Option String
    → Outcome
dispatch_command o now r target message_id key wake_target none =
    account r target (wake_suppressed target key message_id key_no_longer_in_allowlist none) []
dispatch_command o now r target message_id key wake_target (some command) =
    dispatch_probed o now r target message_id key wake_target command
      (probe_of (o.backend.is_pane_state_safe wake_target))

abbrev not_opted_in : SessionRegistry → Outcome
not_opted_in r = record { registry = r; audit = []; argvs = [] }

abbrev dispatch_key :
    WakeDispatcherOptions
    → ℕ
    → SessionRegistry
    → String
    → String
    → SessionEntry
    → Option String
    → Outcome
dispatch_key o now r target message_id entry none = not_opted_in r
dispatch_key o now r target message_id entry (some key) =
    dispatch_command o now r target message_id key (get_or entry.wake_target target)
      (Dict.get o.allowed_commands key)

abbrev dispatch_entry :
    WakeDispatcherOptions → ℕ → SessionRegistry → String → String → Option SessionEntry → Outcome
dispatch_entry o now r target message_id none = not_opted_in r
dispatch_entry o now r target message_id (some entry) =
    dispatch_key o now r target message_id entry entry.auto_wake_key

unfoldable pub maybe_dispatch :
    WakeDispatcherOptions → ℕ → SessionRegistry → String → String → Outcome
unfolding dispatch_probed account
maybe_dispatch o now r target message_id =
    dispatch_entry o now r target message_id (Dict.get r.sessions target)

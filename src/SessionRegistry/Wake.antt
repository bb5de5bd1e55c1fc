-- ===== src/SessionRegistry/Wake.antt =====
-- The wake state of a session (src/core/session-registry.ts): the debounce window, the counters,
-- and the revalidation of stored wake keys at startup.
pub mod Laws
use agentic_mcp_teaming.Common.{
  ℕ, ◌+◌, String, Bool, true, false, Option, none, some, List, [], ◌∷◌, ltb, if◌then◌else◌,
  contains,
}
use agentic_mcp_teaming.Dict.{Dict}
use agentic_mcp_teaming.Dict
use agentic_mcp_teaming.SessionRegistry.{SessionEntry, WakeState, SessionRegistry, fresh_wake_state}

-- A state that is not there yet is created.
unfoldable pub get_wake_state : SessionRegistry → String → WakeState × SessionRegistry
get_wake_state r name = elim (Dict.get r.wake_states name) [
  | some state ↦ (state, r)
  | none ↦
      (fresh_wake_state, record r { wake_states = Dict.set r.wake_states name fresh_wake_state })
]

abbrev set_state : SessionRegistry → String → WakeState → SessionRegistry
set_state r name state = record r { wake_states = Dict.set r.wake_states name state }

-- `now - last < debounceMs` of the source is `now < last + debounceMs`.
abbrev pub in_window : ℕ → ℕ → Option ℕ → Bool
in_window now debounce_ms none = false
in_window now debounce_ms (some last) = ltb now (last + debounce_ms)

unfoldable pub try_consume_wake_window : SessionRegistry → String → ℕ → ℕ → Bool × SessionRegistry
unfolding get_wake_state
try_consume_wake_window r name now debounce_ms =
    let (state, r') = get_wake_state r name in
    if in_window now debounce_ms state.last_dispatched_at
    then (false, r')
    else (true, set_state r' name (record state { last_dispatched_at = some now }))

pub data Counter : Type 0 where
  dispatched suppressed failed : Counter

abbrev pub count_up : Counter → WakeState → WakeState
count_up dispatched s = record s { wakes_dispatched = s.wakes_dispatched + 1 }
count_up suppressed s = record s { wakes_suppressed = s.wakes_suppressed + 1 }
count_up failed s = record s { wakes_failed = s.wakes_failed + 1 }

unfoldable pub increment_wake_counter : SessionRegistry → String → Counter → SessionRegistry
unfolding get_wake_state
increment_wake_counter r name which =
    let (state, r') = get_wake_state r name in set_state r' name (count_up which state)

abbrev pub key_allowed : Option (List String) → String → Bool
key_allowed none key = false
key_allowed (some allowlist) key = contains allowlist key

pub record Cleared : Type 0 where
  pub name : String
  pub removed_key : String

abbrev cleared_of :
    Option (List String) → SessionEntry → Option String → List Cleared → List Cleared
cleared_of allowlist e none rest = rest
cleared_of allowlist e (some key) rest =
    if key_allowed allowlist key then rest else record { name = e.name; removed_key = key } ∷ rest

collect_cleared : Option (List String) → List SessionEntry → List Cleared
collect_cleared allowlist [] = []
collect_cleared allowlist (e ∷ es) =
    cleared_of allowlist e e.auto_wake_key (collect_cleared allowlist es)

abbrev pub revalidated_key : Option (List String) → Option String → Option String
revalidated_key allowlist none = none
revalidated_key allowlist (some key) = if key_allowed allowlist key then some key else none

-- Entries whose key is not in the allowlist lose it; the cleared ones are returned.
unfoldable pub revalidate_auto_wake_keys :
    SessionRegistry → Option (List String) → List Cleared × SessionRegistry
unfolding collect_cleared contains Dict.values
revalidate_auto_wake_keys r allowlist = (
  collect_cleared allowlist (Dict.values r.sessions),
  record r {
    sessions =
        Dict.map_values
          (λ e. record e { auto_wake_key = revalidated_key allowlist e.auto_wake_key }) r.sessions;
  },
)

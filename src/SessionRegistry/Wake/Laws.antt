-- ===== src/SessionRegistry/Wake/Laws.antt =====
-- The debounce window and the wake keys (src/core/session-registry.ts).
use mathlib.Core.Option
use agentic_mcp_teaming.Common.{
  ℕ, ◌+◌, String, ◌≡◌, ◌↔◌, refl, ◌∙◌, false, str_eq, inl, inr, true, not, Option, none, some, List,
  arith, ltb, if◌then◌else◌, Bool-cases, Option-cases,
}
use agentic_mcp_teaming.Dict.{Dict}
use agentic_mcp_teaming.Dict
use agentic_mcp_teaming.SessionRegistry.{SessionEntry, WakeState, SessionRegistry, fresh_wake_state}
use agentic_mcp_teaming.SessionRegistry.Wake.{
  get_wake_state, in_window, try_consume_wake_window, Counter, count_up, increment_wake_counter,
  key_allowed, revalidated_key, revalidate_auto_wake_keys,
}

-- The state that a session has; one that was never touched is fresh.
abbrev pub state_of : Option WakeState → WakeState
state_of none = fresh_wake_state
state_of (some s) = s

abbrev pub wake_state : SessionRegistry → String → WakeState
wake_state r name = state_of (Dict.get r.wake_states name)

module _ (r : SessionRegistry) (name : String) where
  get_wake_state-fst : (get_wake_state r name).0 ≡ wake_state r name
  unfolding get_wake_state
  get_wake_state-fst = ground arith

  wake_state-set :
      (s : WakeState) (r' : SessionRegistry)
      → wake_state (record r' { wake_states = Dict.set r'.wake_states name s }) name ≡ s
  wake_state-set s r' = rw (Dict.get-set_self r'.wake_states name s)

  get_wake_state-snd :
      (wake_state (get_wake_state r name).1 name ≡ wake_state r name)
      × ((get_wake_state r name).1.sessions ≡ r.sessions)
  unfolding get_wake_state
  get_wake_state-snd = elim (Option-cases (Dict.get r.wake_states name)) [
    | inl e ↦
        rw (e, get_wake_state) (rw (Dict.get-set_self r.wake_states name fresh_wake_state), refl)
    | inr (s, e) ↦ rw (e, get_wake_state) (rw e, refl)
  ]

  -- An attempt succeeds outside the window, and then alone it moves the window; the counters and
  -- the sessions stay as they were.
  pub try_consume_wake_window_lem :
      (now debounce_ms : ℕ)
      → let out = try_consume_wake_window r name now debounce_ms in
        let s = wake_state r name in
        (out.0 ≡ not (in_window now debounce_ms s.last_dispatched_at))
        × (wake_state out.1 name ≡ (
            if in_window now debounce_ms s.last_dispatched_at
            then s
            else record s { last_dispatched_at = some now }))
        × (out.1.sessions ≡ r.sessions)
  unfolding try_consume_wake_window
  try_consume_wake_window_lem now debounce_ms = ground (
    arith,
    get_wake_state-fst,
    get_wake_state-snd,
    wake_state-set (record (get_wake_state r name).0 { last_dispatched_at = some now })
        (get_wake_state r name).1,
  )

  -- A counter goes up by one, and the debounce window and the sessions stay as they were.
  pub increment_wake_counter_lem :
      (which : Counter)
      → (wake_state (increment_wake_counter r name which) name ≡ count_up which (wake_state r name))
        × ((increment_wake_counter r name which).sessions ≡ r.sessions)
  unfolding increment_wake_counter
  increment_wake_counter_lem which = ground (
    arith,
    get_wake_state-fst,
    get_wake_state-snd,
    wake_state-set (count_up which (get_wake_state r name).0) (get_wake_state r name).1,
  )

-- The states of other sessions stay as they are.
module _ (r : SessionRegistry) (name other : String) (apart : str_eq name other ≡ false) where
  wake_state-set_other :
      (s : WakeState) (r' : SessionRegistry)
      → wake_state (record r' { wake_states = Dict.set r'.wake_states name s }) other
        ≡ wake_state r' other
  wake_state-set_other s r' = rw (Dict.get-set r'.wake_states name s other, apart) refl

  get_wake_state-other : wake_state (get_wake_state r name).1 other ≡ wake_state r other
  unfolding get_wake_state
  get_wake_state-other = elim (Option-cases (Dict.get r.wake_states name)) [
    | inl e ↦ rw (e, get_wake_state) (wake_state-set_other fresh_wake_state r)
    | inr (s, e) ↦ rw (e, get_wake_state) refl
  ]

  pub try_consume-other :
      (now debounce_ms : ℕ)
      → wake_state (try_consume_wake_window r name now debounce_ms).1 other ≡ wake_state r other
  unfolding try_consume_wake_window
  try_consume-other now debounce_ms =
      elim (Bool-cases (in_window now debounce_ms (get_wake_state r name).0.last_dispatched_at)) [
        | inl within ↦ rw within get_wake_state-other
        | inr over ↦ rw over (
            wake_state-set_other
              (record (get_wake_state r name).0 { last_dispatched_at = some now })
              (get_wake_state r name).1
            ∙ get_wake_state-other)
      ]

  pub increment-other :
      (which : Counter)
      → wake_state (increment_wake_counter r name which) other ≡ wake_state r other
  unfolding increment_wake_counter
  increment-other which =
      wake_state-set_other (count_up which (get_wake_state r name).0) (get_wake_state r name).1
      ∙ get_wake_state-other

-- After an attempt that succeeded, a later one succeeds exactly if the window is over.
pub window_debounces :
    (r : SessionRegistry) (name : String) (now later debounce_ms : ℕ)
    → (try_consume_wake_window r name now debounce_ms).0 ≡ true
    → (try_consume_wake_window
        (try_consume_wake_window r name now debounce_ms).1
        name
        later
        debounce_ms).0
      ≡ not (ltb later (now + debounce_ms))
window_debounces r name now later debounce_ms taken =
    let first = try_consume_wake_window_lem r name now debounce_ms in
    let second =
      try_consume_wake_window_lem (try_consume_wake_window r name now debounce_ms).1 name later
        debounce_ms in
    ground (arith, first, second, taken)

abbrev pub revalidated : Option (List String) → SessionEntry → SessionEntry
revalidated allowlist e = record e { auto_wake_key = revalidated_key allowlist e.auto_wake_key }

get-revalidate :
    (r : SessionRegistry) (allowlist : Option (List String)) (name : String)
    → Dict.get (revalidate_auto_wake_keys r allowlist).1.sessions name
      ≡ Option.map (revalidated allowlist) (Dict.get r.sessions name)
unfolding revalidate_auto_wake_keys
get-revalidate r allowlist name = Dict.get-map_values (revalidated allowlist) r.sessions name

-- After revalidation a session has a wake key exactly if it had that key before and the allowlist
-- has it; with no allowlist no session has one.
pub revalidate_keeps_allowed :
    (r : SessionRegistry) (allowlist : Option (List String)) (name key : String)
    (e e' : SessionEntry)
    → Dict.get r.sessions name ≡ some e
    → Dict.get (revalidate_auto_wake_keys r allowlist).1.sessions name ≡ some e'
    → (e'.auto_wake_key ≡ some key)
      ↔ ((e.auto_wake_key ≡ some key) × (key_allowed allowlist key ≡ true))
revalidate_keeps_allowed r allowlist name key e e' before after =
    let same : e' ≡ revalidated allowlist e =
      ground (arith, get-revalidate r allowlist name, before, after) in
    rw same (allowed e.auto_wake_key)
  where
    allowed :
        (k : Option String)
        → (revalidated_key allowlist k ≡ some key)
          ↔ ((k ≡ some key) × (key_allowed allowlist key ≡ true))
    allowed none = (λ h. cc, λ h. cc (h.0))
    allowed (some k) = elim (Bool-cases (key_allowed allowlist k)) [
      | inl yes' ↦ rw yes' (λ h. (h, ground (arith, h, yes')), λ h. h.0)
      | inr no' ↦ rw no' (λ h. cc, λ h. ground (arith, h, no'))
    ]

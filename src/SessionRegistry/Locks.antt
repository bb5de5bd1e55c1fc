-- ===== src/SessionRegistry/Locks.antt =====
-- `withLock` of SessionRegistry (src/core/session-registry.ts): the promises that its calls chain, and
-- the calls as they wait for them. A call is its number, from 0 in the order of the calls.
pub mod Laws
use agentic_mcp_teaming.Common.{
  ℕ, ◌+◌, ◌==◌, String, Bool, true, false, ◌&&◌, [], if◌then◌else◌, get_or,
}
use agentic_mcp_teaming.Dict.{Dict}
use agentic_mcp_teaming.Dict

-- `Promise.resolve()`, or `prior.then(() => next)` with the `next` of a call.
pub data Promise : Type 0 where
  resolved : Promise
  chained : (prior : Promise) (call : ℕ) → Promise

-- A number that is no call yet, or the call awaits `prior`, runs `fn`, or has resolved its `next`.
pub data CallPhase : Type 0 where
  absent waiting running done : CallPhase

pub record LockState : Type 0 where
  pub locks : Dict Promise
  pub calls : ℕ
  pub name_of : ℕ → String
  pub prior_of : ℕ → Promise
  pub phase_of : ℕ → CallPhase

abbrev pub is_done : CallPhase → Bool
is_done done = true
is_done _ = false

unfoldable pub is_resolved : (ℕ → CallPhase) → Promise → Bool
is_resolved phase resolved = true
is_resolved phase (chained prior call) = is_resolved phase prior && is_done (phase call)

abbrev pub update {ℓ} : {A : Type ℓ} → (ℕ → A) → ℕ → A → ℕ → A
update f i a j = if i == j then a else f j

abbrev pub prior_for : LockState → String → Promise
prior_for s name = get_or (Dict.get s.locks name) resolved

-- From `this.locks.get(name)` to `await prior`
unfoldable pub call_lock : String → LockState → LockState
call_lock name s = record {
  locks = Dict.set s.locks name (chained (prior_for s name) s.calls);
  calls = s.calls + 1;
  name_of = update s.name_of s.calls name;
  prior_of = update s.prior_of s.calls (prior_for s name);
  phase_of = update s.phase_of s.calls waiting;
}

abbrev pub moved : ℕ → CallPhase → LockState → LockState
moved i phase s = record s { phase_of = update s.phase_of i phase }

abbrev pub entered : ℕ → LockState → CallPhase → LockState
entered i s waiting = if is_resolved s.phase_of (s.prior_of i) then moved i running s else s
entered i s _ = s

-- `await prior` is over, and `fn` starts.
unfoldable pub enter : ℕ → LockState → LockState
unfolding is_resolved
enter i s = entered i s (s.phase_of i)

abbrev pub let_go : ℕ → LockState → CallPhase → LockState
let_go i s running = moved i done s
let_go i s _ = s

-- `release()` in the `finally`, whether `fn` returned or threw.
unfoldable pub release : ℕ → LockState → LockState
release i s = let_go i s (s.phase_of i)

abbrev pub no_calls : LockState
no_calls = record {
  locks = [];
  calls = 0;
  name_of = λ i. "";
  prior_of = λ i. resolved;
  phase_of = λ i. absent;
}

-- The steps of the calls, in any order.
pub data LockStep (s : LockState) : LockState → Type 0 where
  calling : (name : String) → LockStep s (call_lock name s)
  entering : (i : ℕ) → LockStep s (enter i s)
  releasing : (i : ℕ) → LockStep s (release i s)

pub data LockRun : LockState → Type 0 where
  unlocked : LockRun no_calls
  after_step : {s t : LockState} → LockRun s → LockStep s t → LockRun t

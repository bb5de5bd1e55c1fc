-- ===== src/Tests/Locking.antt =====
-- The theorems on the coordinator's lock (src/core/coordinator-lock.ts) with processes 11 and 12, and on
-- the lock of a session (src/core/session-registry.ts) with two calls.
use agentic_mcp_teaming.Common.{String, ◌≡◌, refl, Bool, ◌||◌, Option, none, some, str_eq, arith}
use agentic_mcp_teaming.Text.{every}
use agentic_mcp_teaming.CoordinatorLock.{
  create, holding, own_content, is_stale, World, act, acts, Reachable, here, after_step,
}
use agentic_mcp_teaming.CoordinatorLock.Laws.{coordinator_lock_exclusive}
use agentic_mcp_teaming.CoordinatorLock.Race.{stale_lock_shared}
use agentic_mcp_teaming.SessionRegistry.Locks
use agentic_mcp_teaming.SessionRegistry.Locks.{
  LockState, LockRun, unlocked, calling, entering, releasing, call_lock, enter, release, no_calls,
  done,
}
use agentic_mcp_teaming.SessionRegistry.Locks.Laws.{with_lock_exclusive}
use agentic_mcp_teaming.Dict

abbrev alive : String → Bool
alive pid = str_eq pid "11" || str_eq pid "12"

abbrev starting : Option String → World
starting file = record { file = file; activity = λ pid. create }

abbrev held : World
held = act alive "12" (act alive "11" (starting none))

abbrev first : String
first = "11"

coordinator_lock_exclusive_example : (first ≡ first) × (held.file ≡ some (own_content "11"))
unfolding every act
coordinator_lock_exclusive_example =
    coordinator_lock_exclusive alive (starting none) held "11" "11" (λ r. refl) (λ c e. cc)
      (after_step (after_step here (acts "11" (refl, refl) refl)) (acts "12" (refl, refl) refl))
      refl refl

stale_lock_shared_example :
    (u : World) × Reachable alive (starting (some "pid=9\n")) u
    × (u.activity "11" ≡ holding)
    × (u.activity "12" ≡ holding)
unfolding is_stale every
stale_lock_shared_example =
    stale_lock_shared alive (starting (some "pid=9\n")) "pid=9\n" "11" "12" (λ r. refl) refl refl
      (refl, refl) (refl, refl) refl refl refl

-- Two calls on `ann`; the second one tries to go on before and after the release of the first.
abbrev steps : LockState → LockState
steps s = enter 1 (release 0 (enter 1 (enter 0 (call_lock "ann" (call_lock "ann" s)))))

abbrev handed_over : LockState
handed_over = steps no_calls

handed_over-LockRun : LockRun handed_over
handed_over-LockRun =
    Locks.after_step
      (Locks.after_step
        (Locks.after_step
          (Locks.after_step
            (Locks.after_step (Locks.after_step unlocked (calling "ann")) (calling "ann"))
            (entering 0))
          (entering 1))
        (releasing 0))
      (entering 1)

with_lock_exclusive_example : handed_over.phase_of 0 ≡ done
unfolding call_lock enter release Dict.get Dict.set
with_lock_exclusive_example =
    with_lock_exclusive handed_over 0 1 handed_over-LockRun refl (omega arith) refl

-- ===== src/CoordinatorLock.antt =====
-- The lock file of the coordinator (src/core/coordinator-lock.ts). Several processes start and stop at
-- will; each call of the file system is a step of its own, but for the creation of the file and the write
-- of the process id into it, which are one. A process id is its decimal text.
pub mod Laws
pub mod Race
use Prim.Native.String
use agentic_mcp_teaming.Common.{
  String, Bool, true, false, not, Option, none, some, if◌then◌else◌, str_eq, ◌≡◌,
}
use agentic_mcp_teaming.Patterns.{is_digit}
use agentic_mcp_teaming.Text.{is_empty, trim, span_while, every, ◌+++◌}
use agentic_mcp_teaming.Text.Find.{strip_prefix}

-- What a process that starts or stops is about to do.
pub data Activity : Type 0 where
  -- `openSync(lockPath, "wx")`
  create : Activity
  -- `readFileSync` after EEXIST, and the test of the process that it names
  inspect : Activity
  -- `unlinkSync` of a lock that was taken to be stale, and the second `openSync`
  remove_stale recreate : Activity
  -- the lock is held, until `release` reads the file
  holding : Activity
  -- `unlinkSync` of a file that `release` has read as the process's own
  remove_own : Activity
  -- `CoordinatorLockError` was thrown
  refused : Activity
  -- the release is over
  released : Activity

unfoldable pub own_content : String → String
unfolding ◌+++◌
own_content pid = "pid=" +++ pid +++ "\n"

-- /^pid=(\d+)/
abbrev nonempty : String → Option String
nonempty s = if is_empty s then none else some s

abbrev digits_after : Option String → Option String
digits_after none = none
digits_after (some rest) = nonempty (span_while is_digit rest).0

unfoldable pub pid_of : String → Option String
unfolding strip_prefix span_while
pid_of content = digits_after (strip_prefix "pid=" content)

-- `alive pid` tells that `process.kill(pid, 0)` does not throw.
abbrev is_dead : (String → Bool) → Option String → Bool
is_dead alive none = false
is_dead alive (some pid) = not (alive pid)

unfoldable pub is_stale : (String → Bool) → String → Bool
unfolding pid_of
is_stale alive content = is_dead alive (pid_of content)

pub record World : Type 0 where
  pub file : Option String
  pub activity : String → Activity

-- `current.trim() === "pid=" + ownPid`: the file goes only if it is the process's own.
abbrev pub is_own : String → Option String → Bool
is_own pid none = false
is_own pid (some content) = str_eq (trim content) ("pid=" +++ pid)

abbrev pub create_or : Activity → String → Option String → Option String × Activity
create_or otherwise pid none = (some (own_content pid), holding)
create_or otherwise pid (some content) = (some content, otherwise)

abbrev pub inspected : (String → Bool) → Option String → Activity
inspected alive none = refused
inspected alive (some content) = if is_stale alive content then remove_stale else refused

-- One step of a process: the file and the activity that it leaves.
abbrev pub next : (String → Bool) → String → Option String → Activity → Option String × Activity
next alive pid file create = create_or inspect pid file
next alive pid file inspect = (file, inspected alive file)
next alive pid file remove_stale = (none, recreate)
next alive pid file recreate = create_or refused pid file
next alive pid file holding = (file, if is_own pid file then remove_own else released)
next alive pid file remove_own = (none, released)
next alive pid file refused = (file, refused)
next alive pid file released = (file, released)

unfoldable pub act : (String → Bool) → String → World → World
unfolding own_content is_stale trim ◌+++◌
act alive pid w = record {
  file = (next alive pid w.file (w.activity pid)).0;
  activity = λ q. if str_eq pid q then (next alive pid w.file (w.activity pid)).1 else w.activity q;
}

-- A process id is decimal digits.
abbrev pub IsPid : String → Type 0
IsPid pid = (is_empty pid ≡ false) × (every is_digit pid ≡ true)

-- A step of some process that runs.
pub data Step (alive : String → Bool) (w : World) : World → Type 0 where
  acts : (pid : String) → IsPid pid → alive pid ≡ true → Step alive w (act alive pid w)

pub data Reachable (alive : String → Bool) (w : World) : World → Type 0 where
  here : Reachable alive w w
  after_step : {v u : World} → Reachable alive w v → Step alive v u → Reachable alive w u

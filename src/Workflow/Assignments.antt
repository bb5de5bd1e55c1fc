-- ===== src/Workflow/Assignments.antt =====
-- Reading the tasks of tasks.md and giving each a primary and a reviewing agent
-- (parseTaskAssignments of src/phases/tasks.ts). `none` for a primary agent is JavaScript's undefined.
pub mod Laws
use Prim.Native.Char.{code}
use Prim.Native.String
use agentic_mcp_teaming.Common.{
  ℕ, zero, suc, ◌+◌, ◌%◌, String, Bool, true, false, ◌&&◌, ◌||◌, not, Option, none, some, List, [],
  ◌∷◌, ◌==◌, length, get_elem?, if◌then◌else◌, str_eq,
}
use agentic_mcp_teaming.Patterns.{is_digit}
use agentic_mcp_teaming.Session.{TaskAssignment}
use agentic_mcp_teaming.Text.{
  is_blank, is_dot, is_empty, span_while, every, last_char, lines, ◌+++◌,
}

-- The two captures of /^-\s*\[[ x]\]\s*(\d+\.\d+)\s+(.+)$/
pub record TaskLine : Type 0 where
  pub task_id : String
  pub description : String

-- Where the part before is matched and what is left after it.
infixl 5 ◌>>=◌
abbrev ◌>>=◌ : {A B : Type 0} → Option A → (A → Option B) → Option B
none >>= f = none
some a >>= f = f a

-- One character that passes the test.
abbrev char : (ℕ → Bool) → String → Option String
char p String.[] = none
char p (String.◌∷◌ c s) = if p (code c) then some s else none

abbrev filled : String × String → Option (String × String)
filled (String.[], rest) = none
filled (String.◌∷◌ c s, rest) = some (String.◌∷◌ c s, rest)

-- \d+
abbrev digits : String → Option (String × String)
digits s = filled (span_while is_digit s)

abbrev after_blanks : String → String
after_blanks s = (span_while is_blank s).1

abbrev at_least_two : String → Bool
at_least_two (String.◌∷◌ c (String.◌∷◌ d s)) = true
at_least_two _ = false

-- \s+(.+)$. Where nothing follows two blanks or more, `.` takes back the last of them.
abbrev rest_of_line : String × String → Option String
rest_of_line (blanks, rest) =
    if is_empty blanks
    then none
    else if not (is_empty rest)
    then (if every is_dot rest then some rest else none)
    else if at_least_two blanks && every is_dot (last_char blanks)
    then some (last_char blanks)
    else none

unfoldable pub match_task : String → Option TaskLine
unfolding span_while every last_char ◌+++◌
match_task line = do
  s ← char (λ c. c == b'-') line
  s ← char (λ c. c == b'[') (after_blanks s)
  s ← char (λ c. c == 32 || c == b'x') s
  s ← char (λ c. c == b']') s
  (major, s) ← digits (after_blanks s)
  s ← char (λ c. c == b'.') s
  (minor, s) ← digits s
  description ← rest_of_line (span_while is_blank s)
  some (record { task_id = major +++ "." +++ minor; description = description })

-- The lines that match, in order.
abbrev cons_match : Option TaskLine → List TaskLine → List TaskLine
cons_match none ts = ts
cons_match (some t) ts = t ∷ ts

unfoldable pub task_lines : List String → List TaskLine
unfolding match_task
task_lines [] = []
task_lines (l ∷ ls) = cons_match (match_task l) (task_lines ls)

-- `list[i % list.length]!`
unfoldable pub around : List String → ℕ → Option String
around [] i = none
around (x ∷ xs) i = get_elem? (x ∷ xs) (i % length (x ∷ xs))

abbrev differs : Option String → String → Bool
differs none s = true
differs (some r) s = not (str_eq r s)

-- The loop over `offset`: `n` rounds are left, and `i` is `taskIndex + offset`.
unfoldable pub find_reviewer : ℕ → ℕ → List String → String → Option String
unfolding around
find_reviewer zero i reviewers primary = none
find_reviewer (suc n) i reviewers primary =
    let later = find_reviewer n (i + 1) reviewers primary in
    let candidate = around reviewers i in if differs candidate primary then candidate else later

pub data Assigned : Type 0 where
  done : List TaskAssignment → Assigned
  no_reviewer : (primary_agent : String) → Assigned
  no_implementer : Assigned

abbrev cons_assigned : TaskAssignment → Assigned → Assigned
cons_assigned t (done ts) = done (t ∷ ts)
cons_assigned t (no_reviewer p) = no_reviewer p
cons_assigned t no_implementer = no_implementer

abbrev pair_with : TaskLine → String → Option String → Assigned → Assigned
pair_with line primary none rest = no_reviewer primary
pair_with line primary (some reviewer) rest =
    cons_assigned
      (record {
        task_id = line.task_id;
        description = line.description;
        primary_agent = primary;
        reviewing_agent = reviewer;
      })
      rest

abbrev give : List String → TaskLine → ℕ → Option String → Assigned → Assigned
give reviewers line i none rest = no_implementer
give reviewers line i (some primary) rest =
    pair_with line primary (find_reviewer (length reviewers) i reviewers primary) rest

unfoldable pub assign : List String → List String → ℕ → List TaskLine → Assigned
unfolding find_reviewer
assign implementers reviewers i [] = done []
assign implementers reviewers i (line ∷ ls) =
    give reviewers line i (around implementers i) (assign implementers reviewers (i + 1) ls)

unfoldable pub parse_task_assignments : String → List String → List String → Assigned
unfolding assign task_lines lines
parse_task_assignments content implementers reviewers =
    assign implementers reviewers 0 (task_lines (lines content))

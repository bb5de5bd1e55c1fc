-- ===== src/Implementation/Patch.antt =====
-- The patch in an agent's answer (parseGeneratedPatch of src/phases/implementation.ts). Each regular
-- expression is read from left to right; where it could go back, another try would not match either.
use agentic_mcp_teaming.Common.{ℕ, zero, suc, String, Option, none, some, len, if◌then◌else◌}
use agentic_mcp_teaming.Text.{is_blank, is_dot, is_empty, trim, span_while, ◌+++◌}
use agentic_mcp_teaming.Text.Find.{strip_prefix, strip_prefix_i, cut}

pub record GeneratedPatch : Type 0 where
  pub summary : String
  pub commit_message : String
  pub patch : String

abbrev before_fence : Option (String × String) → Option String
before_fence none = none
before_fence (some (before, after)) = some before

-- /```diff\s*([\s\S]*?)```/i
abbrev in_fence : Option (String × String) → Option String
in_fence none = none
in_fence (some (before, after)) =
    before_fence (cut (strip_prefix "```") (span_while is_blank after).1)

-- /(diff --git[\s\S]*)/
abbrev from_git : Option (String × String) → Option String
from_git none = none
from_git (some (before, after)) = some ("diff --git" +++ after)

abbrev or_else : Option String → Option String → Option String
or_else none b = b
or_else (some a) b = some a

unfoldable pub find_patch : String → Option String
unfolding cut strip_prefix strip_prefix_i span_while ◌+++◌
find_patch content =
    or_else (in_fence (cut (strip_prefix_i "```diff") content))
      (from_git (cut (strip_prefix "diff --git") content))

-- \s*(.+) and `trim`
abbrev message_after : String → Option String
message_after after = some (trim (span_while is_dot (span_while is_blank after).1).0)

abbrev message_in : Option (String × String) → Option String
message_in none = none
message_in (some (before, after)) = message_after after

abbrev message_at_start : Option String → Option String → Option String
message_at_start none later = later
message_at_start (some after) later = message_after after

-- /(?:^|\n)Commit message:\s*(.+)/i
unfoldable pub find_message : String → Option String
unfolding cut strip_prefix_i span_while trim
find_message content =
    message_at_start (strip_prefix_i "Commit message:" content)
      (message_in (cut (strip_prefix_i "\nCommit message:") content))

-- What `replace(/```diff[\s\S]*?```/gi, "")` leaves. Each round takes a fence off, so the length of the
-- text bounds the rounds.
abbrev drop_fence : (String → String) → String → Option (String × String) → String
drop_fence again s none = s
drop_fence again s (some (before, after)) = elim (cut (strip_prefix "```") after) [
  | none ↦ s
  | some (fenced, rest) ↦ before +++ again rest
]

unfoldable pub strip_fences : ℕ → String → String
unfolding cut strip_prefix strip_prefix_i ◌+++◌
strip_fences zero s = s
strip_fences (suc fuel) s = drop_fence (strip_fences fuel) s (cut (strip_prefix_i "```diff") s)

abbrev before_or_all : String → Option (String × String) → String
before_or_all s none = s
before_or_all s (some (before, after)) = before

unfoldable pub strip_diff_block : String → String
unfolding strip_fences cut strip_prefix_i trim
strip_diff_block content =
    let s = strip_fences (len content) content in
    trim (before_or_all s (cut (strip_prefix_i "diff --git") s))

-- `s || d`
abbrev or_default : Option String → String → String
or_default none d = d
or_default (some s) d = if is_empty s then d else s

-- An empty patch counts as none.
abbrev from_patch : String → String → Option String → Option GeneratedPatch
from_patch content task_id none = none
from_patch content task_id (some patch) =
    if is_empty patch
    then none
    else some (record {
      summary = or_default (some (strip_diff_block content)) ("Implemented task " +++ task_id);
      commit_message = or_default (find_message content) ("Implement task " +++ task_id);
      patch = patch;
    })

unfoldable pub parse_generated_patch : String → String → Option GeneratedPatch
unfolding find_patch find_message strip_diff_block ◌+++◌
parse_generated_patch content task_id = from_patch content task_id (find_patch content)

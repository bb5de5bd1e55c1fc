-- ===== src/Text/Find.antt =====
-- Searching a text for a text, with or without regard to case.
use Prim.Native.Char.{code}
use Prim.Native.String.{[], ◌∷◌}
use agentic_mcp_teaming.Common.{ℕ, ◌+◌, String, ◌&&◌, Option, none, some, ◌==◌, leb, if◌then◌else◌}

-- A letter in lower case, where it is one of ASCII's.
abbrev pub fold : ℕ → ℕ
fold c = if leb b'A' c && leb c b'Z' then c + 32 else c

-- What follows a prefix.
unfoldable pub strip_prefix : String → String → Option String
strip_prefix [] s = some s
strip_prefix (c ∷ p) [] = none
strip_prefix (c ∷ p) (d ∷ s) =
    let rest = strip_prefix p s in if code c == code d then rest else none

-- The same for a regular expression with the flag `i`.
unfoldable pub strip_prefix_i : String → String → Option String
strip_prefix_i [] s = some s
strip_prefix_i (c ∷ p) [] = none
strip_prefix_i (c ∷ p) (d ∷ s) =
    let rest = strip_prefix_i p s in if fold (code c) == fold (code d) then rest else none

-- What stands before and after the first occurrence.
abbrev cons_before : Prim.Native.Char.Char → Option (String × String) → Option (String × String)
cons_before c none = none
cons_before c (some (before, after)) = some (c ∷ before, after)

unfoldable pub cut : (String → Option String) → String → Option (String × String)
cut strip [] = elim (strip []) [ none ↦ none | some rest ↦ some ([], rest) ]
cut strip (c ∷ s) =
    let later = cons_before c (cut strip s) in
    elim (strip (c ∷ s)) [ none ↦ later | some rest ↦ some ([], rest) ]

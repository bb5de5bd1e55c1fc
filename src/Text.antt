-- ===== src/Text.antt =====
-- JavaScript's operations on texts that the program uses: white space, lines, prefixes.
pub mod Find
use Prim.Native.Char.{code}
use Prim.Native.String.{[], ◌∷◌}
use agentic_mcp_teaming.Common.{
  ℕ, String, Bool, true, false, ◌&&◌, ◌||◌, not, List, ◌==◌, leb, if◌then◌else◌,
}
use mathlib.Core.List

-- White space and line terminators, which `\s` and `trim` take.
abbrev pub is_blank : ℕ → Bool
is_blank c =
    leb 9 c && leb c 13
    || c == 32
    || c == 160
    || c == 5760
    || leb 8192 c && leb c 8202
    || c == 8232
    || c == 8233
    || c == 8239
    || c == 8287
    || c == 12288
    || c == 65279

-- What `.` matches: no line terminator.
abbrev pub is_dot : ℕ → Bool
is_dot c = not (c == 10 || c == 13 || c == 8232 || c == 8233)

abbrev pub is_empty : String → Bool
is_empty [] = true
is_empty (c ∷ s) = false

trim_start : String → String
trim_start [] = []
trim_start (c ∷ s) = let rest = trim_start s in if is_blank (code c) then rest else c ∷ s

trim_end : String → String
trim_end [] = []
trim_end (c ∷ s) =
    let rest = trim_end s in if is_empty rest && is_blank (code c) then [] else c ∷ rest

unfoldable pub trim : String → String
unfolding trim_start trim_end
trim s = trim_end (trim_start s)

-- The longest run of characters that pass the test, and what follows it.
unfoldable pub span_while : (ℕ → Bool) → String → String × String
span_while p [] = ([], [])
span_while p (c ∷ s) =
    let rest = span_while p s in if p (code c) then (c ∷ rest.0, rest.1) else ([], c ∷ s)

unfoldable pub every : (ℕ → Bool) → String → Bool
every p [] = true
every p (c ∷ s) = p (code c) && every p s

unfoldable pub last_char : String → String
last_char [] = []
last_char (c ∷ []) = c ∷ []
last_char (c ∷ d ∷ s) = last_char (d ∷ s)

-- `s.split("\n")`
abbrev to_first : Prim.Native.Char.Char → List String → List String
to_first c List.[] = List.◌∷◌ (c ∷ []) List.[]
to_first c (List.◌∷◌ l ls) = List.◌∷◌ (c ∷ l) ls

unfoldable pub lines : String → List String
lines [] = List.◌∷◌ [] List.[]
lines (c ∷ s) = let rest = lines s in if code c == 10 then List.◌∷◌ [] rest else to_first c rest

-- `s + t`
infixr 65 ◌+++◌
unfoldable pub ◌+++◌ : String → String → String
[] +++ t = t
(c ∷ s) +++ t = c ∷ (s +++ t)

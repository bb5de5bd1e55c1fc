-- ===== src/WakeDispatcher/Texts.antt =====
-- The scrubbing of a pane's command (src/core/wake-dispatcher.ts).
use Prim.Native.Char.{code}
use Prim.Native.String.{[], ◌∷◌}
use agentic_mcp_teaming.Common.{ℕ, zero, suc, String, ◌&&◌, leb, if◌then◌else◌}

-- The first characters of a text.
prefix : ℕ → String → String
prefix zero s = []
prefix (suc n) [] = []
prefix (suc n) (c ∷ s) = c ∷ prefix n s

printable : String → String
printable [] = []
printable (c ∷ s) =
    let rest = printable s in if leb 32 (code c) && leb (code c) 126 then c ∷ rest else rest

-- /[^\x20-\x7E]/g removed, then at most 64 characters
unfoldable pub scrub_current_command : String → String
unfolding prefix printable
scrub_current_command s = prefix 64 (printable s)

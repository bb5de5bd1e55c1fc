-- ===== src/Tests/Texts.antt =====
-- Texts that stand for numbers.
use Prim.Native.String.{[], ◌∷◌}
use agentic_mcp_teaming.Common.{ℕ, zero, suc, String, ◌≡◌, ap, refl}

-- A text of n characters, and the number of characters of a text.
unfoldable pub dots : ℕ → String
dots zero = []
dots (suc n) = "." ∷ dots n

unfoldable pub size : String → ℕ
size [] = 0
size (ch ∷ s) = suc (size s)

pub size-dots : (n : ℕ) → size (dots n) ≡ n
unfolding size dots
size-dots zero = refl
size-dots (suc n) = ap suc (size-dots n)

-- ===== src/Patterns.antt =====
-- The regular expressions of core/peer-bus-constants.ts and core/session-registry.ts, each as a
-- walk over the code points of the text.
use Prim.Native.Char.{code}
use agentic_mcp_teaming.Common.{
  ℕ, zero, suc, String, Bool, true, false, ◌&&◌, ◌||◌, List, [], ◌∷◌, leb, ◌==◌, length, all, take,
  drop, bytes_eq,
}

abbrev pub codes : String → List ℕ
codes String.[] = []
codes (String.◌∷◌ c s) = code c ∷ codes s

abbrev pub in_range : ℕ → ℕ → ℕ → Bool
in_range lo hi c = leb lo c && leb c hi

abbrev pub is_digit : ℕ → Bool
is_digit = in_range b'0' b'9'

abbrev pub is_lower : ℕ → Bool
is_lower = in_range b'a' b'z'

abbrev pub is_upper : ℕ → Bool
is_upper = in_range b'A' b'Z'

abbrev pub is_hyphen : ℕ → Bool
is_hyphen c = c == b'-'

abbrev pub is_name_head : ℕ → Bool
is_name_head c = is_lower c || is_digit c

abbrev pub is_name_char : ℕ → Bool
is_name_char c = is_name_head c || is_hyphen c

matches_name : List ℕ → Bool
matches_name [] = false
matches_name (c ∷ cs) = is_name_head c && all is_name_char cs && leb (length cs) 62

-- /^[a-z0-9][a-z0-9-]{0,62}$/
unfoldable pub session_name_regex : String → Bool
unfolding matches_name all
session_name_regex s = matches_name (codes s)

abbrev pub is_key_char : ℕ → Bool
is_key_char c = is_lower c || is_upper c || is_digit c || c == b'_' || is_hyphen c

-- /^[a-zA-Z0-9_-]{1,64}$/
unfoldable pub auto_wake_key_regex : String → Bool
unfolding all
auto_wake_key_regex s =
    let cs = codes s in leb 1 (length cs) && leb (length cs) 64 && all is_key_char cs

-- /^<label>:\d+$/ for a label that ends in its colon
matches_id : List ℕ → List ℕ → Bool
matches_id label cs =
    let digits = drop (length label) cs in
    bytes_eq (take (length label) cs) label && leb 1 (length digits) && all is_digit digits

-- /^surface:\d+$/
unfoldable pub cmux_surface_id_regex : String → Bool
unfolding matches_id all bytes_eq
cmux_surface_id_regex s = matches_id (codes "surface:") (codes s)

-- /^workspace:\d+$/
unfoldable pub cmux_workspace_id_regex : String → Bool
unfolding matches_id all bytes_eq
cmux_workspace_id_regex s = matches_id (codes "workspace:") (codes s)

abbrev is_hex : ℕ → Bool
is_hex c = is_digit c || in_range b'a' b'f' c || in_range b'A' b'F' c

abbrev is_variant : ℕ → Bool
is_variant c = c == b'8' || c == b'9' || c == b'a' || c == b'b' || c == b'A' || c == b'B'

replicate_class : ℕ → (ℕ → Bool) → List (ℕ → Bool) → List (ℕ → Bool)
replicate_class zero c rest = rest
replicate_class (suc n) c rest = c ∷ replicate_class n c rest

-- one class for each place of the text
matches_classes : List (ℕ → Bool) → List ℕ → Bool
matches_classes [] [] = true
matches_classes (p ∷ ps) (c ∷ cs) = p c && matches_classes ps cs
matches_classes _ _ = false

uuid_classes : List (ℕ → Bool)
unfolding replicate_class
uuid_classes = replicate_class 8 is_hex (
    is_hyphen
    ∷ replicate_class 4 is_hex (
        is_hyphen
        ∷ (λ c. c == b'4')
        ∷ replicate_class 3 is_hex (
            is_hyphen
            ∷ is_variant
            ∷ replicate_class 3 is_hex (is_hyphen ∷ replicate_class 12 is_hex []))))

-- /^[0-9a-f]{8}-[0-9a-f]{4}-4[0-9a-f]{3}-[89ab][0-9a-f]{3}-[0-9a-f]{12}$/i
unfoldable pub uuid_v4_regex : String → Bool
unfolding uuid_classes matches_classes
uuid_v4_regex s = matches_classes uuid_classes (codes s)

-- /^[0-9a-f]{lo,hi}$/
unfoldable pub lower_hex_regex : ℕ → ℕ → String → Bool
unfolding all
lower_hex_regex lo hi s =
    let cs = codes s in
    leb lo (length cs) && leb (length cs) hi && all (λ c. is_digit c || in_range b'a' b'f' c) cs

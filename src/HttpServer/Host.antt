-- ===== src/HttpServer/Host.antt =====
-- The hosts that the server binds and advertises (src/server/index.ts).
use Prim.Native.Char.{code}
use agentic_mcp_teaming.Common.{
  ℕ, ◌+◌, String, Bool, true, false, ◌&&◌, ◌||◌, not, Option, none, some, ltb, if◌then◌else◌,
  is_some, get_or,
}
use agentic_mcp_teaming.Text.{is_empty, trim, ◌+++◌}
use agentic_mcp_teaming.Text.Find.{strip_prefix, strip_prefix_i, cut}

-- `Buffer.byteLength(s, "utf8")`
abbrev utf8_length : ℕ → ℕ
utf8_length c = if ltb c 0x80 then 1 else if ltb c 0x800 then 2 else if ltb c 0x10000 then 3 else 4

unfoldable pub byte_length : String → ℕ
byte_length String.[] = 0
byte_length (String.◌∷◌ c s) = utf8_length (code c) + byte_length s

-- Equal without regard to case; the literals have ASCII letters only.
abbrev spells_all : Option String → Bool
spells_all none = false
spells_all (some rest) = is_empty rest

abbrev spells : String → String → Bool
spells literal h = spells_all (strip_prefix_i literal h)

unfoldable pub is_loopback_host : String → Bool
unfolding trim strip_prefix strip_prefix_i
is_loopback_host host =
    let h = trim host in
    spells "localhost" h
    || spells "::1" h
    || spells "0:0:0:0:0:0:0:1" h
    || spells "[::1]" h
    || is_some (strip_prefix "127." h)

-- What decides whether the server binds at all.
pub data Binding : Type 0 where
  refused : Binding
  bound : (encrypted warned : Bool) → Binding

unfoldable pub bind_host : (tls_active allow_insecure_non_loopback : Bool) → String → Binding
unfolding is_loopback_host
bind_host tls_active allow_insecure_non_loopback host =
    if not tls_active && not (is_loopback_host host)
    then (if allow_insecure_non_loopback then bound false true else refused)
    else bound tls_active false

-- `h.includes(":")`
abbrev has_colon : String → Bool
has_colon h = is_some (cut (strip_prefix ":") h)

unfoldable pub bracketed : String → String
unfolding cut strip_prefix ◌+++◌
bracketed host =
    if has_colon host && not (is_some (strip_prefix "[" host)) then "[" +++ host +++ "]" else host

-- The port is its decimal text.
unfoldable pub coordinator_sse_url : (has_tls : Bool) → String → Option String → String → String
unfolding bracketed ◌+++◌
coordinator_sse_url has_tls host advertised_host port =
    (if has_tls then "https" else "http")
    +++ "://"
    +++ bracketed (get_or advertised_host host)
    +++ ":"
    +++ port
    +++ "/sse"

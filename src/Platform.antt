-- ===== src/Platform.antt =====
-- What the program takes from Node.js: hashes, hexadecimal, dates and JSON. None of it is under
-- the repository, so it is a parameter; the laws are the documented behaviour that is relied on.
use agentic_mcp_teaming.Common.{ℕ, String, ◌≡◌, ◌≢◌, Bool, Option, some, List, length}

mutual
  -- `unknown` values as `JSON.parse` makes them. A number is kept as its text.
  pub data Json : Type 0 where
    null : Json
    bool : Bool → Json
    number : String → Json
    text : String → Json
    array : Elements → Json
    object : Members → Json

  pub data Elements : Type 0 where
    nil : Elements
    cons : Json → Elements → Elements

  pub data Members : Type 0 where
    end : Members
    member : String → Json → Members → Members

pub record Platform : Type 0 where
  -- `crypto.createHash("sha256").update(s).digest()`
  pub sha256 : String → List ℕ
  -- `buffer.toString("hex")` and `Buffer.from(s, "hex")`
  pub to_hex : List ℕ → String
  pub from_hex : String → List ℕ
  -- `Date.parse`, with `none` for NaN, and `new Date(t).toISOString()`; times are milliseconds
  -- since 1970.
  pub date_parse : String → Option ℕ
  pub to_iso : ℕ → String
  -- `JSON.stringify`, and `JSON.parse` with `none` where it throws
  pub stringify : Json → String
  pub json_parse : String → Option Json

pub record PlatformLaws (p : Platform) : Type 0 where
  pub length-sha256 : (s : String) → length (p.sha256 s) ≡ 32
  pub from_hex-to_hex : (s : String) → p.from_hex (p.to_hex (p.sha256 s)) ≡ p.sha256 s
  pub to_hex-ne-empty : (s : String) → p.to_hex (p.sha256 s) ≢ ""
  pub date_parse-to_iso : (t : ℕ) → p.date_parse (p.to_iso t) ≡ some t

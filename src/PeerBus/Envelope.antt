-- ===== src/PeerBus/Envelope.antt =====
-- `wrapEnvelope` and its helpers (src/server/tools/peer-bus.ts), over the characters of the texts.
pub mod Safe
pub mod Escape
use Prim.Native.Char.{code}
use Prim.Native.String.{[], ◌∷◌, ◌++◌}
use agentic_mcp_teaming.Common.{ℕ, String, Bool, ◌&&◌, ◌||◌, ◌==◌, leb, if◌then◌else◌}
use agentic_mcp_teaming.Platform.{Platform}
use agentic_mcp_teaming.Message.{PeerMessage, kind_text, serialised}

-- `s.replace(/c/g, t)` for one character c.
unfoldable pub replace : ℕ → String → String → String
replace c t [] = []
replace c t (ch ∷ s) = let rest = replace c t s in if code ch == c then t ++ rest else ch ∷ rest

unfoldable pub xml_escape : String → String
unfolding replace
xml_escape s =
    replace b'\'' "&apos;"
      (replace b'"' "&quot;" (replace b'>' "&gt;" (replace b'<' "&lt;" (replace b'&' "&amp;" s))))

-- U+0000-U+0008, U+000B, U+000C, U+000E-U+001F
abbrev pub xml_illegal_ctrl : ℕ → Bool
xml_illegal_ctrl c = leb c 8 || c == 11 || c == 12 || leb 14 c && leb c 31

unfoldable pub strip : String → String
strip [] = []
strip (ch ∷ s) = let rest = strip s in if xml_illegal_ctrl (code ch) then rest else ch ∷ rest

abbrev pub clean : String → String
clean s = xml_escape (strip s)

unfoldable pub wrap_envelope : Platform → PeerMessage → String
unfolding xml_escape strip
wrap_envelope p msg =
    "<peer-message from=\""
    ++ (clean msg.from
        ++ ("\" kind=\""
            ++ (clean (kind_text msg.kind)
                ++ ("\" messageId=\""
                    ++ (clean msg.message_id
                        ++ ("\">" ++ (clean (serialised p msg.body) ++ "</peer-message>")))))))

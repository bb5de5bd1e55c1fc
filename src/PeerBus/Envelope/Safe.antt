-- ===== src/PeerBus/Envelope/Safe.antt =====
-- What no text can put into an envelope (`wrapEnvelope`, src/server/tools/peer-bus.ts).
use Prim.Native.Char.{code}
use Prim.Native.String.{[], ◌∷◌, ◌++◌}
use text.Mathlib.TextLemmas.{nil-append, cons-append}
use agentic_mcp_teaming.Common.{
  ℕ, String, ◌≡◌, refl, Bool, true, ◌&&◌, not, ◌==◌, arith, Bool-cases, inl, inr,
}
use agentic_mcp_teaming.PeerBus.Envelope.{
  replace, xml_escape, strip, xml_illegal_ctrl, clean, wrap_envelope,
}
use agentic_mcp_teaming.PeerBus.Envelope.Escape.{escaped, clean-escaped}
use agentic_mcp_teaming.Platform.{Platform}
use agentic_mcp_teaming.Message.{PeerMessage, kind_text, serialised}

-- Every character of a text passes a test on its code.
unfoldable pub all_chars : (ℕ → Bool) → String → Bool
all_chars test [] = true
all_chars test (ch ∷ s) = test (code ch) && all_chars test s

module _ (test : ℕ → Bool) where
  all_chars-append :
      (s t : String) → all_chars test (s ++ t) ≡ (all_chars test s && all_chars test t)
  unfolding all_chars
  all_chars-append [] t = rw (nil-append t) refl
  all_chars-append (ch ∷ s) t = rw (cons-append ch s t) (ground (arith, all_chars-append s t))

  -- Replacing a character keeps a test that the new text passes.
  replace-keeps :
      (c : ℕ) (t s : String)
      → all_chars test t ≡ true
      → all_chars test s ≡ true
      → all_chars test (replace c t s) ≡ true
  unfolding all_chars replace
  replace-keeps c t [] ht hs = refl
  replace-keeps c t (ch ∷ s) ht hs = elim (Bool-cases (code ch == c)) [
    | inl hit ↦
        rw hit (ground (arith, all_chars-append t (replace c t s), ht, hs, replace-keeps c t s ht))
    | inr miss ↦ rw miss (ground (arith, hs, replace-keeps c t s ht))
  ]

-- A replaced character is gone.
replace-removes :
    (c : ℕ) (t s : String)
    → all_chars (λ d. not (d == c)) t ≡ true
    → all_chars (λ d. not (d == c)) (replace c t s) ≡ true
unfolding all_chars replace
replace-removes c t [] ht = refl
replace-removes c t (ch ∷ s) ht = elim (Bool-cases (code ch == c)) [
  | inl hit ↦ rw hit (
      ground (
        arith,
        all_chars-append (λ d. not (d == c)) t (replace c t s),
        ht,
        replace-removes c t s ht,
      ))
  | inr miss ↦ rw miss (ground (arith, miss, replace-removes c t s ht))
]

strip-legal : (s : String) → all_chars (λ d. not (xml_illegal_ctrl d)) (strip s) ≡ true
unfolding all_chars strip
strip-legal [] = refl
strip-legal (ch ∷ s) = elim (Bool-cases (xml_illegal_ctrl (code ch))) [
  | inl bad ↦ rw (bad, strip) (strip-legal s)
  | inr fine ↦ rw (fine, strip, all_chars) (rw fine (strip-legal s))
]

-- The text after each round of `xml_escape`.
abbrev amp : String → String
amp s = replace b'&' "&amp;" s

abbrev lt : String → String
lt s = replace b'<' "&lt;" (amp s)

abbrev gt : String → String
gt s = replace b'>' "&gt;" (lt s)

abbrev quot : String → String
quot s = replace b'"' "&quot;" (gt s)

module _ (c : ℕ) where
  abbrev pub free : ℕ → Bool
  free d = not (d == c)

  abbrev pub Free : String → Type 0
  Free s = all_chars free s ≡ true

module _ (test : ℕ → Bool) (s : String) where
  gt-keeps :
      all_chars test "&gt;" ≡ true → all_chars test (lt s) ≡ true → all_chars test (gt s) ≡ true
  gt-keeps t h = replace-keeps test b'>' "&gt;" (lt s) t h

  quot-keeps :
      all_chars test "&quot;" ≡ true → all_chars test (gt s) ≡ true → all_chars test (quot s) ≡ true
  quot-keeps t h = replace-keeps test b'"' "&quot;" (gt s) t h

  escape-keeps :
      all_chars test "&apos;" ≡ true
      → all_chars test (quot s) ≡ true
      → all_chars test (xml_escape s) ≡ true
  unfolding xml_escape
  escape-keeps t h = replace-keeps test b'\'' "&apos;" (quot s) t h

-- A text that can neither close the element or an attribute nor open another one.
abbrev pub Inert : String → Type 0
Inert s =
    Free b'<' s
    × Free b'>' s
    × Free b'"' s
    × Free b'\'' s
    × (all_chars (λ d. not (xml_illegal_ctrl d)) s ≡ true)

clean-Inert : (s : String) → Inert (clean s)
unfolding xml_escape all_chars
clean-Inert s =
    let t = strip s in
    let legal : ℕ → Bool = λ d. not (xml_illegal_ctrl d) in
    (
      escape-keeps (free b'<') t refl (
          quot-keeps (free b'<') t refl
            (gt-keeps (free b'<') t refl (replace-removes b'<' "&lt;" (amp t) refl))),
      escape-keeps (free b'>') t refl
          (quot-keeps (free b'>') t refl (replace-removes b'>' "&gt;" (lt t) refl)),
      escape-keeps (free b'"') t refl (replace-removes b'"' "&quot;" (gt t) refl),
      replace-removes b'\'' "&apos;" (quot t) refl,
      escape-keeps legal t refl (
          quot-keeps legal t refl (
            gt-keeps legal t refl (
              replace-keeps legal b'<' "&lt;" (amp t) refl
                (replace-keeps legal b'&' "&amp;" t refl (strip-legal s))))),
    )

-- The text of an envelope with these values.
abbrev pub framed : (from kind message_id body : String) → String
framed from kind message_id body =
    "<peer-message from=\""
    ++ (from
        ++ ("\" kind=\""
            ++ (kind
                ++ ("\" messageId=\"" ++ (message_id ++ ("\">" ++ (body ++ "</peer-message>")))))))

abbrev pub Escaped : String → String → Type 0
Escaped s t = (t ≡ escaped s) × Inert t

clean-Escaped : (s : String) → Escaped s (clean s)
clean-Escaped s = (clean-escaped s, clean-Inert s)

-- Whatever a message is, its envelope is one element whose attributes and content are the sender, the
-- kind, the id and the body. Each is escaped in one pass, a character of the markup by its entity, and no
-- character of the markup but the entities' own, nor a control character that XML forbids, is left in it.
pub wrap_envelope_escapes :
    (p : Platform) (m : PeerMessage)
    → (from : String) × (kind : String) × (message_id : String) × (body : String) × (wrap_envelope p
          m
        ≡ framed from kind message_id body)
      × Escaped m.from from
      × Escaped (kind_text m.kind) kind
      × Escaped m.message_id message_id
      × Escaped (serialised p m.body) body
unfolding wrap_envelope
wrap_envelope_escapes p m = (
  clean m.from,
  clean (kind_text m.kind),
  clean m.message_id,
  clean (serialised p m.body),
  refl,
  clean-Escaped m.from,
  clean-Escaped (kind_text m.kind),
  clean-Escaped m.message_id,
  clean-Escaped (serialised p m.body),
)

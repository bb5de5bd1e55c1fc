-- ===== src/PeerBus/Envelope/Escape.antt =====
-- The escaping of `wrapEnvelope` (src/server/tools/peer-bus.ts), five replacements one after the other,
-- is one pass over the characters.
use Prim.Native.Char.{Char, code}
use Prim.Native.String.{[], ◌∷◌, ◌++◌}
use text.Mathlib.TextLemmas.{nil-append, cons-append, append_assoc}
use agentic_mcp_teaming.Common.{
  ℕ, String, ◌≡◌, refl, sym, ap, ◌∙◌, ◌==◌, Bool-cases, inl, inr, if◌then◌else◌, true, false,
}
use agentic_mcp_teaming.PeerBus.Envelope.{replace, xml_escape, strip, xml_illegal_ctrl, clean}

-- The entity of a character of the markup, and any other character as it is.
unfoldable pub entity : Char → String
entity ch =
    if code ch == b'&'
    then "&amp;"
    else if code ch == b'<'
    then "&lt;"
    else if code ch == b'>'
    then "&gt;"
    else if code ch == b'"'
    then "&quot;"
    else if code ch == b'\''
    then "&apos;"
    else ch ∷ []

-- A text without the characters that XML forbids, each other character by its entity.
unfoldable pub escaped : String → String
unfolding entity
escaped [] = []
escaped (ch ∷ s) =
    let rest = escaped s in if xml_illegal_ctrl (code ch) then rest else entity ch ++ rest

replace-append : (c : ℕ) (t a b : String) → replace c t (a ++ b) ≡ replace c t a ++ replace c t b
unfolding replace
replace-append c t [] b = rw (nil-append b, nil-append (replace c t b)) refl
replace-append c t (ch ∷ a) b = elim (Bool-cases (code ch == c)) [
  | inl hit ↦
      rw (cons-append ch a b, replace, hit, replace-append c t a b)
        (sym (append_assoc t (replace c t a) (replace c t b)))
  | inr miss ↦
      rw (cons-append ch a b, replace, miss, replace-append c t a b)
        (sym (cons-append ch (replace c t a) (replace c t b)))
]

-- A character that is hit, or missed, in front of the rest of the text.
replace-hit :
    (c : ℕ) (t : String) (ch : Char) (s : String)
    → (code ch == c) ≡ true
    → replace c t (ch ∷ s) ≡ t ++ replace c t s
unfolding replace
replace-hit c t ch s hit = rw hit refl

replace-miss :
    (c : ℕ) (t : String) (ch : Char) (s : String)
    → (code ch == c) ≡ false
    → replace c t (ch ∷ s) ≡ ch ∷ replace c t s
unfolding replace
replace-miss c t ch s miss = rw miss refl

-- A text that a replacement leaves as it is, in front of another.
replace-kept :
    (c : ℕ) (t e s : String) → replace c t e ≡ e → replace c t (e ++ s) ≡ e ++ replace c t s
replace-kept c t e s kept = replace-append c t e s ∙ ap (λ x. x ++ replace c t s) kept

abbrev amp : String → String
amp s = replace b'&' "&amp;" s

abbrev lt : String → String
lt s = replace b'<' "&lt;" s

abbrev gt : String → String
gt s = replace b'>' "&gt;" s

abbrev quot : String → String
quot s = replace b'"' "&quot;" s

abbrev apos : String → String
apos s = replace b'\'' "&apos;" s

module _ (e s : String) where
  apos-kept : apos e ≡ e → apos (e ++ s) ≡ e ++ apos s
  apos-kept d = replace-kept b'\'' "&apos;" e s d

  quot-kept : apos e ≡ e → quot e ≡ e → apos (quot (e ++ s)) ≡ e ++ apos (quot s)
  quot-kept d c =
      ap apos (replace-kept b'"' "&quot;" e s c) ∙ replace-kept b'\'' "&apos;" e (quot s) d

  gt-kept : apos e ≡ e → quot e ≡ e → gt e ≡ e → apos (quot (gt (e ++ s))) ≡ e ++ apos (quot (gt s))
  gt-kept d c b =
      ap (λ x. apos (quot x)) (replace-kept b'>' "&gt;" e s b)
      ∙ ap apos (replace-kept b'"' "&quot;" e (gt s) c)
      ∙ replace-kept b'\'' "&apos;" e (quot (gt s)) d

  lt-kept :
      apos e ≡ e
      → quot e ≡ e
      → gt e ≡ e
      → lt e ≡ e
      → apos (quot (gt (lt (e ++ s)))) ≡ e ++ apos (quot (gt (lt s)))
  lt-kept d c b a =
      ap (λ x. apos (quot (gt x))) (replace-kept b'<' "&lt;" e s a)
      ∙ ap (λ x. apos (quot x)) (replace-kept b'>' "&gt;" e (lt s) b)
      ∙ ap apos (replace-kept b'"' "&quot;" e (gt (lt s)) c)
      ∙ replace-kept b'\'' "&apos;" e (quot (gt (lt s))) d

-- What the later replacements make of an entity that an earlier one put in.
amp_kept : (s : String) → apos (quot (gt (lt ("&amp;" ++ s)))) ≡ "&amp;" ++ apos (quot (gt (lt s)))
unfolding replace
amp_kept s = lt-kept "&amp;" s refl refl refl refl

lt_kept : (s : String) → apos (quot (gt ("&lt;" ++ s))) ≡ "&lt;" ++ apos (quot (gt s))
unfolding replace
lt_kept s = gt-kept "&lt;" s refl refl refl

gt_kept : (s : String) → apos (quot ("&gt;" ++ s)) ≡ "&gt;" ++ apos (quot s)
unfolding replace
gt_kept s = quot-kept "&gt;" s refl refl

quot_kept : (s : String) → apos ("&quot;" ++ s) ≡ "&quot;" ++ apos s
unfolding replace
quot_kept s = apos-kept "&quot;" s refl

xml_escape-cons : (ch : Char) (s : String) → xml_escape (ch ∷ s) ≡ entity ch ++ xml_escape s
unfolding xml_escape entity
xml_escape-cons ch s = elim (Bool-cases (code ch == b'&')) [
  | inl e ↦ rw (replace-hit b'&' "&amp;" ch s e, e) (amp_kept (amp s))
  | inr na ↦ elim (Bool-cases (code ch == b'<')) [
    | inl e ↦
        rw (replace-miss b'&' "&amp;" ch s na, replace-hit b'<' "&lt;" ch (amp s) e, na, e)
          (lt_kept (lt (amp s)))
    | inr nl ↦ elim (Bool-cases (code ch == b'>')) [
      | inl e ↦
          rw
            (
              replace-miss b'&' "&amp;" ch s na,
              replace-miss b'<' "&lt;" ch (amp s) nl,
              replace-hit b'>' "&gt;" ch (lt (amp s)) e,
              na,
              nl,
              e,
            )
            (gt_kept (gt (lt (amp s))))
      | inr ng ↦ elim (Bool-cases (code ch == b'"')) [
        | inl e ↦
            rw
              (
                replace-miss b'&' "&amp;" ch s na,
                replace-miss b'<' "&lt;" ch (amp s) nl,
                replace-miss b'>' "&gt;" ch (lt (amp s)) ng,
                replace-hit b'"' "&quot;" ch (gt (lt (amp s))) e,
                na,
                nl,
                ng,
                e,
              )
              (quot_kept (quot (gt (lt (amp s)))))
        | inr nq ↦
            rw
              (
                replace-miss b'&' "&amp;" ch s na,
                replace-miss b'<' "&lt;" ch (amp s) nl,
                replace-miss b'>' "&gt;" ch (lt (amp s)) ng,
                replace-miss b'"' "&quot;" ch (gt (lt (amp s))) nq,
                na,
                nl,
                ng,
                nq,
              )
              (last (quot (gt (lt (amp s)))))
      ]
    ]
  ]
]
  where
    last : (x : String) → apos (ch ∷ x) ≡ (if code ch == b'\'' then "&apos;" else ch ∷ []) ++ apos x
    last x = elim (Bool-cases (code ch == b'\'')) [
      | inl e ↦ rw (replace-hit b'\'' "&apos;" ch x e, e) refl
      | inr n ↦
          rw (replace-miss b'\'' "&apos;" ch x n, n)
            (sym (cons-append ch [] (apos x) ∙ ap (λ y. ch ∷ y) (nil-append (apos x))))
    ]

xml_escape-nil : xml_escape [] ≡ []
unfolding xml_escape replace
xml_escape-nil = refl

pub clean-escaped : (s : String) → clean s ≡ escaped s
unfolding escaped strip
clean-escaped [] = xml_escape-nil
clean-escaped (ch ∷ s) = elim (Bool-cases (xml_illegal_ctrl (code ch))) [
  | inl bad ↦ rw bad (clean-escaped s)
  | inr fine ↦ rw fine (xml_escape-cons ch (strip s) ∙ ap (λ x. entity ch ++ x) (clean-escaped s))
]

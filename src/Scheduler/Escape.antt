-- ===== src/Scheduler/Escape.antt =====
-- xmlEscape and systemdEscape of internal/scheduler/scheduler.go.
use tailpreview.Base.Lists.{All}
use tailpreview.Base.{
  ℕ, zero, suc, ◌≡◌, ◌∙◌, ◌||◌, refl, ap, sym, Bool-cases, inl, inr, Bool, false, Option, none,
  some, [], ◌∷◌, ◌++◌, arith, ◌==◌, if◌then◌else◌,
}
use tailpreview.Base.Strings.{Text, codes, has_prefix}
use tailpreview.Scheduler.{xml_escape}

-- How an XML parser reads character data: the five predefined entities, and every other character as
-- it is. The first number of characters belong to an entity that was read.
abbrev pub entity : Text → Option (ℕ × ℕ)
entity s =
    if has_prefix s (codes "amp;")
    then some (b'&', 4)
    else if has_prefix s (codes "lt;")
    then some (b'<', 3)
    else if has_prefix s (codes "gt;")
    then some (b'>', 3)
    else if has_prefix s (codes "quot;")
    then some (b'"', 5)
    else if has_prefix s (codes "apos;")
    then some (b'\'', 5)
    else none

abbrev pub read_entity : Option (ℕ × ℕ) → Text → (ℕ → Text) → Text
read_entity none kept next = b'&' ∷ kept
read_entity (some (c, n)) kept next = c ∷ next n

unfoldable pub xml_unescape : ℕ → Text → Text
unfolding has_prefix
xml_unescape k [] = []
xml_unescape (suc k) (c ∷ s) = xml_unescape k s
xml_unescape zero (c ∷ s) =
    let kept : Text = xml_unescape zero s in
    let read : Text = read_entity (entity s) kept (λ k. xml_unescape k s) in
    if c == b'&' then read else c ∷ kept

abbrev pub is_markup : ℕ → Bool
is_markup c = c == b'<' || c == b'>' || c == b'"' || c == b'\''

-- No character of markup.
abbrev pub HasNoMarkup : Text → Type 0
HasNoMarkup s = All (λ c. is_markup c ≡ false) s

-- One character, escaped.
data Escaped (c : ℕ) (rest : Text) : Text → Type 0 where
  amp : c ≡ b'&' → Escaped c rest (codes "&amp;" ++ rest)
  lt : c ≡ b'<' → Escaped c rest (codes "&lt;" ++ rest)
  gt : c ≡ b'>' → Escaped c rest (codes "&gt;" ++ rest)
  quot : c ≡ b'"' → Escaped c rest (codes "&quot;" ++ rest)
  apos : c ≡ b'\'' → Escaped c rest (codes "&apos;" ++ rest)
  plain : (c == b'&') ≡ false → is_markup c ≡ false → Escaped c rest (c ∷ rest)

xml_escape-Escaped : (c : ℕ) (s : Text) → Escaped c (xml_escape s) (xml_escape (c ∷ s))
unfolding xml_escape
xml_escape-Escaped c s = elim (Bool-cases (c == b'&')) [
  | inl e ↦ rw e (amp (ground arith))
  | inr e ↦ rw e (elim (Bool-cases (c == b'<')) [
    | inl f ↦ rw f (lt (ground arith))
    | inr f ↦ rw f (elim (Bool-cases (c == b'>')) [
      | inl g ↦ rw g (gt (ground arith))
      | inr g ↦ rw g (elim (Bool-cases (c == b'"')) [
        | inl h ↦ rw h (quot (ground arith))
        | inr h ↦ rw h (elim (Bool-cases (c == b'\'')) [
          | inl i ↦ rw i (apos (ground arith))
          | inr i ↦ rw i (plain e (ground arith))
        ])
      ])
    ])
  ])
]

Escaped-read :
    (c : ℕ) (rest t : Text) → Escaped c rest t → xml_unescape zero t ≡ c ∷ xml_unescape zero rest
unfolding xml_unescape
Escaped-read c rest t (amp e) = ap (λ x. x ∷ xml_unescape zero rest) (sym e)
Escaped-read c rest t (lt e) = ap (λ x. x ∷ xml_unescape zero rest) (sym e)
Escaped-read c rest t (gt e) = ap (λ x. x ∷ xml_unescape zero rest) (sym e)
Escaped-read c rest t (quot e) = ap (λ x. x ∷ xml_unescape zero rest) (sym e)
Escaped-read c rest t (apos e) = ap (λ x. x ∷ xml_unescape zero rest) (sym e)
Escaped-read c rest t (plain a m) = rw a refl

Escaped-HasNoMarkup : (c : ℕ) (rest t : Text) → Escaped c rest t → HasNoMarkup rest → HasNoMarkup t
Escaped-HasNoMarkup c rest t (amp e) h = (refl, (refl, (refl, (refl, (refl, h)))))
Escaped-HasNoMarkup c rest t (lt e) h = (refl, (refl, (refl, (refl, h))))
Escaped-HasNoMarkup c rest t (gt e) h = (refl, (refl, (refl, (refl, h))))
Escaped-HasNoMarkup c rest t (quot e) h = (refl, (refl, (refl, (refl, (refl, (refl, h))))))
Escaped-HasNoMarkup c rest t (apos e) h = (refl, (refl, (refl, (refl, (refl, (refl, h))))))
Escaped-HasNoMarkup c rest t (plain a m) h = (m, h)

-- A path that xmlEscape escapes has no character that ends or opens markup or a quotation, and an XML
-- parser, which replaces the predefined entities, reads it as the path.
pub xml_escape_lem :
    (s : Text) → HasNoMarkup (xml_escape s) × (xml_unescape zero (xml_escape s) ≡ s)
unfolding xml_escape xml_unescape
xml_escape_lem [] = (tt, refl)
xml_escape_lem (c ∷ s) =
    let e = xml_escape-Escaped c s in
    let rest = xml_escape_lem s in
    (
      Escaped-HasNoMarkup c (xml_escape s) _ e rest.0,
      Escaped-read c (xml_escape s) _ e ∙ ap (◌∷◌ c) rest.1,
    )

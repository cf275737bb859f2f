-- ===== src/Service/Slug.antt =====
-- What slug makes of a name.
use tailpreview.Base.{
  ℕ, ◌≡◌, ◌⊎◌, inl, inr, refl, Bool, true, false, not, ◌&&◌, [], ◌∷◌, if◌then◌else◌, Bool-cases,
}
use tailpreview.Base.Lists.{All}
use tailpreview.Base.Strings.{Text, trim_left, trim_right, trim_space, to_lower}
use tailpreview.Service.Naming.{is_slug_rune, slug_runes, is_dash, slug}

-- A lower-case letter, a digit or a dash.
abbrev pub IsSlugRune : ℕ → Type 0
IsSlugRune c = (is_slug_rune c ≡ true) ⊎ (c ≡ b'-')

-- The text does not begin, or does not end, with a dash.
abbrev pub HeadOk : Text → Type 0
HeadOk [] = Unit
HeadOk (c ∷ s) = is_dash c ≡ false

abbrev pub LastOk : Text → Type 0
LastOk [] = Unit
LastOk (c ∷ []) = is_dash c ≡ false
LastOk (c ∷ d ∷ s) = LastOk (d ∷ s)

one_rune :
    (r : ℕ) (s : Text) (b started x y : Bool)
    → is_slug_rune r ≡ x
    → All IsSlugRune (slug_runes false true s)
    → All IsSlugRune (slug_runes true true s)
    → All IsSlugRune (slug_runes b started s)
    → All IsSlugRune (elim x [
      | true ↦ r ∷ slug_runes false true s
      | false ↦ elim y [ true ↦ b'-' ∷ slug_runes true true s | false ↦ slug_runes b started s ]
    ])
one_rune r s b started true y e h k l = (inl e, h)
one_rune r s b started false true e h k l = (inr refl, k)
one_rune r s b started false false e h k l = l

slug_runes-All : (b started : Bool) (s : Text) → All IsSlugRune (slug_runes b started s)
unfolding slug_runes
slug_runes-All b started [] = tt
slug_runes-All b started (r ∷ s) =
    one_rune r s b started (is_slug_rune r) (not b && started) refl (slug_runes-All false true s)
      (slug_runes-All true true s) (slug_runes-All b started s)

module _ (P : ℕ → Type 0) (p : ℕ → Bool) where
  All-trim_left : (s : Text) → All P s → All P (trim_left p s)
  unfolding trim_left
  All-trim_left [] h = tt
  All-trim_left (c ∷ s) h = elim (Bool-cases (p c)) [
    | inl e ↦ rw e (All-trim_left s h.1)
    | inr e ↦ rw e h
  ]

  All-trim_right : (s : Text) → All P s → All P (trim_right p s)
  unfolding trim_right
  All-trim_right [] h = tt
  All-trim_right (c ∷ s) h = step (trim_right p s) (All-trim_right s h.1)
    where
      step :
          (r : Text)
          → All P r
          → All P (elim r [ [] ↦ if p c then [] else c ∷ [] | d ∷ t ↦ c ∷ d ∷ t ])
      step [] k = elim (Bool-cases (p c)) [ inl e ↦ rw e tt | inr e ↦ rw e (h.0, tt) ]
      step (d ∷ t) k = (h.0, k)

trim_left-HeadOk : (s : Text) → HeadOk (trim_left is_dash s)
unfolding trim_left
trim_left-HeadOk [] = tt
trim_left-HeadOk (c ∷ s) = elim (Bool-cases (is_dash c)) [
  | inl e ↦ rw e (trim_left-HeadOk s)
  | inr e ↦ rw e e
]

trim_right-HeadOk : (s : Text) → HeadOk s → HeadOk (trim_right is_dash s)
unfolding trim_right
trim_right-HeadOk [] h = tt
trim_right-HeadOk (c ∷ s) h = step (trim_right is_dash s)
  where
    step :
        (r : Text) → HeadOk (elim r [ [] ↦ if is_dash c then [] else c ∷ [] | d ∷ t ↦ c ∷ d ∷ t ])
    step [] = rw h h
    step (d ∷ t) = h

trim_right-LastOk : (s : Text) → LastOk (trim_right is_dash s)
unfolding trim_right
trim_right-LastOk [] = tt
trim_right-LastOk (c ∷ s) = step (trim_right is_dash s) (trim_right-LastOk s)
  where
    step :
        (r : Text)
        → LastOk r
        → LastOk (elim r [ [] ↦ if is_dash c then [] else c ∷ [] | d ∷ t ↦ c ∷ d ∷ t ])
    step [] k = elim (Bool-cases (is_dash c)) [ inl e ↦ rw e tt | inr e ↦ rw e e ]
    step (d ∷ t) k = k

-- Whatever the value, its slug has only lower-case letters, digits and dashes, and neither begins nor
-- ends with a dash.
pub slug_lem :
    (value : Text) → All IsSlugRune (slug value) × HeadOk (slug value) × LastOk (slug value)
unfolding slug
slug_lem value =
    let runes = slug_runes false false (to_lower (trim_space value)) in
    let all = slug_runes-All false false (to_lower (trim_space value)) in
    (
      All-trim_right IsSlugRune is_dash (trim_left is_dash runes)
          (All-trim_left IsSlugRune is_dash runes all),
      trim_right-HeadOk (trim_left is_dash runes) (trim_left-HeadOk runes),
      trim_right-LastOk (trim_left is_dash runes),
    )

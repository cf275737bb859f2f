-- ===== src/Config/Substitute/Pieces.antt =====
-- The matches of the pattern of internal/config/config.go, as regexp finds them.
use tailpreview.Base.{
  ℕ, zero, suc, ◌≤◌, ◌≡◌, ◌⊎◌, ◌↔◌, refl, subst, ◌∙◌, ap, true, false, Bool, Option, none, some,
  if◌then◌else◌, List, [], ◌∷◌, ◌++◌, arith, Option-cases, inl, inr, ◌==◌,
}
use tailpreview.Base.Lists.{length, All}
use tailpreview.Base.Strings.{Text}
use tailpreview.Config.Substitute.{
  is_name_start, is_name_rune, name_until_brace, after_dollar, variable_at, Piece, character,
  variable, pieces,
}

-- `[A-Za-z_]` and `[A-Za-z0-9_]`
abbrev pub IsStart : ℕ → Type 0
IsStart c = ((b'A' ≤ c) × (c ≤ b'Z')) ⊎ ((b'a' ≤ c) × (c ≤ b'z')) ⊎ (c ≡ b'_')

abbrev pub IsPart : ℕ → Type 0
IsPart c = IsStart c ⊎ ((b'0' ≤ c) × (c ≤ b'9'))

abbrev pub IsName : Text → Type 0
IsName [] = ⊥
IsName (c ∷ s) = IsStart c × All IsPart s

-- The text begins with a match of the pattern for this name, and then there is the rest.
abbrev pub IsMatch : Text → Text → Text → Type 0
IsMatch name rest s = (s ≡ b'$' ∷ b'{' ∷ (name ++ b'}' ∷ rest)) × IsName name

-- The text from left to right: a character stays where no match begins, and a match is taken whole.
abbrev pub IsScan : List Piece → Text → Type 0
IsScan [] s = s ≡ []
IsScan (character c ∷ ps) s =
    (rest : Text) × (s ≡ c ∷ rest)
    × ((name : Text) (after : Text) → IsMatch name after s → ⊥)
    × IsScan ps rest
IsScan (variable name ∷ ps) s = (rest : Text) × IsMatch name rest s × IsScan ps rest

-- What is left after some characters.
abbrev pub drop : ℕ → Text → Text
drop zero s = s
drop (suc k) [] = []
drop (suc k) (c ∷ s) = drop k s

name_until_brace_lem :
    (s name : Text) → name_until_brace s ≡ some name → s ≡ name ++ b'}' ∷ drop (suc (length name)) s
unfolding name_until_brace
name_until_brace_lem [] name h = absurd (cc h)
name_until_brace_lem (c ∷ s) [] h = ground (arith, Option-cases (name_until_brace s))
name_until_brace_lem (c ∷ s) (d ∷ name) h =
    ground (arith, name_until_brace_lem s name, Option-cases (name_until_brace s))

after_dollar_lem :
    (s name : Text)
    → after_dollar s ≡ some name
    → s ≡ b'{' ∷ (name ++ b'}' ∷ drop (suc (suc (length name))) s)
after_dollar_lem [] name h = absurd (cc h)
after_dollar_lem (c ∷ []) name h = absurd (ground arith)
after_dollar_lem (c ∷ d ∷ s) name h = ground (arith, name_until_brace_lem (d ∷ s) name)

variable_at_lem :
    (c : ℕ) (s name : Text)
    → variable_at (c ∷ s) ≡ some name
    → c ∷ s ≡ b'$' ∷ b'{' ∷ (name ++ b'}' ∷ drop (suc (suc (length name))) s)
unfolding variable_at
variable_at_lem c s name h = ground (arith, after_dollar_lem s name)

IsStart-iff : (c : ℕ) → (is_name_start c ≡ true) ↔ IsStart c
IsStart-iff c = (λ h. ground arith, λ h. ground arith)

IsPart-iff : (c : ℕ) → (is_name_rune c ≡ true) ↔ IsPart c
IsPart-iff c = (λ h. ground (arith, IsStart-iff c), λ h. ground (arith, IsStart-iff c))

name_until_brace-IsPart : (s name : Text) → name_until_brace s ≡ some name → All IsPart name
unfolding name_until_brace
name_until_brace-IsPart [] name h = absurd (cc h)
name_until_brace-IsPart (c ∷ s) [] h = tt
name_until_brace-IsPart (c ∷ s) (d ∷ name) h =
    let more : name_until_brace s ≡ some name = ground (arith, Option-cases (name_until_brace s)) in
    let part : is_name_rune c ≡ true = ground (arith, Option-cases (name_until_brace s)) in
    let same : c ≡ d = ground (arith, Option-cases (name_until_brace s)) in
    (subst IsPart same ((IsPart-iff c).0 part), name_until_brace-IsPart s name more)

name_until_brace_match :
    (name rest : Text) → All IsPart name → name_until_brace (name ++ b'}' ∷ rest) ≡ some name
unfolding name_until_brace
name_until_brace_match [] rest h = refl
name_until_brace_match (c ∷ name) rest h =
    let part : is_name_rune c ≡ true = (IsPart-iff c).1 h.0 in
    let inside : (c == b'}') ≡ false = ground arith in
    rw (inside, part, name_until_brace_match name rest h.1) refl

variable_at-IsName : (c : ℕ) (s name : Text) → variable_at (c ∷ s) ≡ some name → IsName name
unfolding variable_at name_until_brace
variable_at-IsName c [] name h = absurd (ground arith)
variable_at-IsName c (d ∷ []) name h = absurd (ground arith)
variable_at-IsName c (d ∷ e ∷ s) name h =
    let start : is_name_start e ≡ true = ground arith in
    let found : name_until_brace (e ∷ s) ≡ some name = ground arith in by_name name start found
  where
    by_name : (n : Text) → is_name_start e ≡ true → name_until_brace (e ∷ s) ≡ some n → IsName n
    by_name [] p q = absurd (ground (arith, Option-cases (name_until_brace s)))
    by_name (f ∷ n) p q =
        let same : e ≡ f = ground (arith, Option-cases (name_until_brace s)) in
        (subst IsStart same ((IsStart-iff e).0 p), (name_until_brace-IsPart (e ∷ s) (f ∷ n) q).1)

taken : (b : Bool) (o : Option Text) → b ≡ true → (if b then o else none) ≡ o
taken b o h = rw h refl

variable_at_match : (s name rest : Text) → IsMatch name rest s → variable_at s ≡ some name
unfolding variable_at
variable_at_match s [] rest (e, h) = absurd h
variable_at_match s (c ∷ name) rest (e, h) =
    let start : is_name_start c ≡ true = (IsStart-iff c).1 h.0 in
    let found : name_until_brace (c ∷ (name ++ b'}' ∷ rest)) ≡ some (c ∷ name) =
      name_until_brace_match (c ∷ name) rest (inl h.0, h.1) in
    ap variable_at e ∙ taken (is_name_start c) _ start ∙ found

pieces-IsScan-drop : (k : ℕ) (s : Text) → IsScan (pieces k s) (drop k s)
unfolding pieces
pieces-IsScan-drop zero [] = refl
pieces-IsScan-drop (suc k) [] = refl
pieces-IsScan-drop (suc k) (c ∷ s) = pieces-IsScan-drop k s
pieces-IsScan-drop zero (c ∷ s) = elim (Option-cases (variable_at (c ∷ s))) [
  | inl e ↦ rw e (
    s,
    refl,
    (λ name after m. cc (e, variable_at_match (c ∷ s) name after m)),
    pieces-IsScan-drop zero s,
  )
  | inr (name, e) ↦ rw e (
    drop (suc (suc (length name))) s,
    (variable_at_lem c s name e, variable_at-IsName c s name e),
    pieces-IsScan-drop (suc (suc (length name))) s,
  )
]

-- What substitute sees is the scan of its pattern `\$\{([A-Za-z_][A-Za-z0-9_]*)\}` from left to right:
-- a character stays exactly where no match begins, a match is taken whole with its name, and the scan
-- goes on after it, so that no match overlaps another and no character is lost.
pub pieces-IsScan : (s : Text) → IsScan (pieces zero s) s
pieces-IsScan s = pieces-IsScan-drop zero s

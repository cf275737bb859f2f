-- ===== src/Base/Strings.antt =====
-- Go strings as lists of code points, and the functions of package strings that the program calls.
use Prim.Native.Nat.{ℕ, zero, suc, ◌+◌, ◌/◌, ◌%◌}
use Prim.Native.Char.{code}
use Prim.Native.String.{String}
use mathlib.Core.Path.{◌≡◌, refl}
use mathlib.Core.Bool.{Bool, true, false, ◌&&◌, ◌||◌}
use mathlib.Core.Logic.{◌↔◌}
use mathlib.Core.Option.{Option, none, some}
use mathlib.Core.List.{List, [], ◌∷◌, map}
use native.Mathlib.Omega.{arith}
use tailpreview.Base.Tests.{ltb, leb, ◌==◌, if◌then◌else◌}
use tailpreview.Base.Lists.{any}
use tailpreview.Base.Fold.{fold_rune}

abbrev pub Text : Type 0
Text = List ℕ

-- The code points of a literal.
abbrev pub codes : String → Text
codes String.[] = []
codes (String.◌∷◌ c s) = code c ∷ codes s

unfoldable pub text_eq : Text → Text → Bool
text_eq [] [] = true
text_eq [] (_ ∷ _) = false
text_eq (_ ∷ _) [] = false
text_eq (a ∷ s) (b ∷ t) = a == b && text_eq s t

pub text_eq_iff : (s t : Text) → (text_eq s t ≡ true) ↔ (s ≡ t)
unfolding text_eq
text_eq_iff [] [] = (λ _. refl, λ _. refl)
text_eq_iff [] (b ∷ t) = (λ h. cc, λ h. cc)
text_eq_iff (a ∷ s) [] = (λ h. cc, λ h. cc)
text_eq_iff (a ∷ s) (b ∷ t) = ground (arith, text_eq_iff s t)

pub text_eq_refl : (s : Text) → text_eq s s ≡ true
text_eq_refl s = (text_eq_iff s s).1 refl

abbrev pub is_empty : Text → Bool
is_empty [] = true
is_empty (_ ∷ _) = false

-- strings.HasPrefix, HasSuffix, Contains
unfoldable pub has_prefix : Text → Text → Bool
has_prefix s [] = true
has_prefix [] (_ ∷ _) = false
has_prefix (a ∷ s) (b ∷ p) = a == b && has_prefix s p

unfoldable pub has_suffix : Text → Text → Bool
unfolding text_eq
has_suffix [] p = text_eq [] p
has_suffix (a ∷ s) p = text_eq (a ∷ s) p || has_suffix s p

unfoldable pub contains : Text → Text → Bool
unfolding has_prefix
contains [] p = has_prefix [] p
contains (a ∷ s) p = has_prefix (a ∷ s) p || contains s p

-- strings.ContainsAny
unfoldable pub contains_any : Text → Text → Bool
contains_any s chars = any (λ c. any (λ d. c == d) chars) s

-- strings.TrimSuffix
unfoldable pub trim_suffix : Text → Text → Text
unfolding text_eq
trim_suffix [] p = []
trim_suffix (a ∷ s) p = if text_eq (a ∷ s) p then [] else a ∷ trim_suffix s p

-- strings.SplitN with a separator of one character and two parts: `none` where it is absent.
unfoldable pub cut : ℕ → Text → Option (Text × Text)
cut c [] = none
cut c (a ∷ s) =
    if a == c then some ([], s) else elim (cut c s) [ none ↦ none | some (l, r) ↦ some (a ∷ l, r) ]

-- The same at the last separator, as strings.LastIndex finds it.
unfoldable pub cut_last : ℕ → Text → Option (Text × Text)
cut_last c [] = none
cut_last c (a ∷ s) = elim (cut_last c s) [
  | some (l, r) ↦ some (a ∷ l, r)
  | none ↦ if a == c then some ([], s) else none
]

-- unicode.ToLower on the runes whose lower case is ASCII: A to Z, the Kelvin sign and the dotted
-- capital I. Every other rune keeps a code outside ASCII.
unfoldable pub lower_rune : ℕ → ℕ
lower_rune c =
    if leb b'A' c && leb c b'Z'
    then c + 32
    else if c == 0x212A
    then b'k'
    else if c == 0x130
    then b'i'
    else c

unfoldable pub to_lower : Text → Text
unfolding lower_rune
to_lower s = map lower_rune s

-- strings.EqualFold
unfoldable pub equal_fold : Text → Text → Bool
unfolding fold_rune text_eq
equal_fold s t = text_eq (map fold_rune s) (map fold_rune t)

pub equal_fold_iff : (s t : Text) → (equal_fold s t ≡ true) ↔ (map fold_rune s ≡ map fold_rune t)
unfolding equal_fold
equal_fold_iff s t = text_eq_iff _ _

-- unicode.IsSpace
unfoldable pub is_space : ℕ → Bool
is_space c =
    (leb 9 c && leb c 13)
    || c == 32
    || c == 0x85
    || c == 0xA0
    || c == 0x1680
    || (leb 0x2000 c && leb c 0x200A)
    || c == 0x2028
    || c == 0x2029
    || c == 0x202F
    || c == 0x205F
    || c == 0x3000

-- Drops the leading characters that pass the test, and the trailing ones.
unfoldable pub trim_left : (ℕ → Bool) → Text → Text
trim_left p [] = []
trim_left p (a ∷ s) = if p a then trim_left p s else a ∷ s

unfoldable pub trim_right : (ℕ → Bool) → Text → Text
trim_right p [] = []
trim_right p (a ∷ s) = elim (trim_right p s) [ [] ↦ if p a then [] else a ∷ [] | b ∷ r ↦ a ∷ b ∷ r ]

-- strings.TrimSpace
unfoldable pub trim_space : Text → Text
unfolding is_space trim_left trim_right
trim_space s = trim_right is_space (trim_left is_space s)

trims : trim_space (codes "  a b ") ≡ codes "a b"
unfolding trim_space
trims = refl

cuts_last : cut_last b'=' (codes "a=b=c") ≡ some (codes "a=b", codes "c")
unfolding cut_last
cuts_last = refl

-- filepath.Base on a slash-separated system: the last element, "." for no path, "/" for the root.
unfoldable pub last_element : Text → Text
unfolding cut_last
last_element s = elim (cut_last b'/' s) [ none ↦ s | some (_, r) ↦ r ]

unfoldable pub base : Text → Text
unfolding trim_right last_element
base [] = codes "."
base (a ∷ s) = elim (trim_right (λ c. c == b'/') (a ∷ s)) [
  | [] ↦ codes "/"
  | b ∷ r ↦ last_element (b ∷ r)
]

base_runs : base (codes "/home/me/app/") ≡ codes "app"
unfolding base
base_runs = refl

-- strconv.Itoa of a number that is not negative.
itoa_fuel : ℕ → ℕ → Text → Text
itoa_fuel zero n acc = acc
itoa_fuel (suc f) n acc =
    let rest = itoa_fuel f (n / 10) ((b'0' + n % 10) ∷ acc) in
    if ltb n 10 then (b'0' + n) ∷ acc else rest

unfoldable pub itoa : ℕ → Text
unfolding itoa_fuel
itoa n = itoa_fuel (suc n) n []

itoa_runs : itoa 8443 ≡ codes "8443"
unfolding itoa
itoa_runs = refl

-- ===== src/Arguments/Written.antt =====
-- The texts URL=MIN-MAX and PATH=MIN-MAX that parseHealthRange and parseVerificationCheck of
-- cmd/tailpreview/main.go read.
use tailpreview.Base.{
  ℕ, ◌≤◌, ◌≡◌, ◌⊎◌, inl, inr, refl, ap, subst, ◌∙◌, Option, none, some, [], ◌∷◌, ◌++◌, arith,
  Option-cases,
}
use tailpreview.Base.Strings.{Text, cut, cut_last}
use tailpreview.Base.Outcome.{ok, Outcome-cases}
use tailpreview.Model.{VerificationCheck}
use tailpreview.Url.{Net}
use tailpreview.Config.Upstream.{validate_verification_path}
use tailpreview.Config.Sound.{IsCheck}
use tailpreview.Config.Values.Printed.{cut_lem}
use tailpreview.Arguments.{
  atoi, both_sides, both_codes, codes_of, checked_range, health_range_of, parse_health_range,
  check_of_range, check_of, checked_check, parse_verification_check,
}
use tailpreview.Arguments.Sound.{parse_verification_check-IsCheck}

-- The text is NAME=MIN-MAX with these numbers.
pub record IsWritten (raw name : Text) (lo hi : ℕ) : Type 0 where
  pub low : Text
  pub high : Text
  pub written : raw ≡ name ++ b'=' ∷ (low ++ b'-' ∷ high)
  pub low_number : atoi low ≡ some lo
  pub high_number : atoi high ≡ some hi

cut_last_written : (c : ℕ) (s l r : Text) → cut_last c s ≡ some (l, r) → s ≡ l ++ c ∷ r
unfolding cut_last
cut_last_written c [] l r h = absurd (cc h)
cut_last_written c (a ∷ s) [] r h = ground (arith, Option-cases (cut_last c s))
cut_last_written c (a ∷ s) (b ∷ l) r h =
    ground (arith, Option-cases (cut_last c s), cut_last_written c s l r)

both_codes_lem :
    (a b : Option ℕ) (lo hi : ℕ) → both_codes a b ≡ some (lo, hi) → (a ≡ some lo) × (b ≡ some hi)
both_codes_lem (some a) (some b) lo hi h = (ground arith, ground arith)
both_codes_lem (some a) none lo hi h = absurd (cc h)
both_codes_lem none b lo hi h = absurd (cc h)

codes_of_lem :
    (raw name range : Text) (o : Option (Text × Text)) (lo hi : ℕ)
    → raw ≡ name ++ b'=' ∷ range
    → cut b'-' range ≡ o
    → codes_of o ≡ some (some (lo, hi))
    → IsWritten raw name lo hi
codes_of_lem raw name range none lo hi w e h = absurd (cc h)
codes_of_lem raw name range (some (l, r)) lo hi w e h =
    let (a, b) = both_codes_lem (atoi l) (atoi r) lo hi (ground arith) in
    record {
      low = l;
      high = r;
      written = w ∙ ap (λ t. name ++ b'=' ∷ t) (cut_lem b'-' range l r e).0;
      low_number = a;
      high_number = b;
    }

both_sides_lem :
    (o : Option (Text × Text)) (l r : Text) → both_sides o ≡ some (l, r) → o ≡ some (l, r)
both_sides_lem none l r h = absurd (cc h)
both_sides_lem (some (a, b)) l r h = ground arith

-- Codes that --health-range takes.
abbrev pub IsRange : Text → Text × ℕ × ℕ → Type 0
IsRange raw (url, lo, hi) = IsWritten raw url lo hi × (100 ≤ lo) × (lo ≤ hi) × (hi ≤ 599)

checked_range_lem :
    (url : Text) (o : Option (Option (ℕ × ℕ))) (u : Text) (lo hi : ℕ)
    → checked_range url o ≡ ok (u, lo, hi)
    → (url ≡ u) × (o ≡ some (some (lo, hi))) × (100 ≤ lo) × (lo ≤ hi) × (hi ≤ 599)
checked_range_lem url none u lo hi h = absurd (cc h)
checked_range_lem url (some none) u lo hi h = absurd (cc h)
checked_range_lem url (some (some (a, b))) u lo hi h =
    (ground arith, ground arith, ground arith, ground arith, ground arith)

health_range_of_lem :
    (raw : Text) (o : Option (Text × Text)) (u : Text) (lo hi : ℕ)
    → both_sides (cut_last b'=' raw) ≡ o
    → health_range_of o ≡ ok (u, lo, hi)
    → IsRange raw (u, lo, hi)
health_range_of_lem raw none u lo hi e h = absurd (cc h)
health_range_of_lem raw (some (url, range)) u lo hi e h =
    let (a, b, c, d, f) = checked_range_lem url (codes_of (cut b'-' range)) u lo hi h in
    let w = cut_last_written b'=' raw url range (both_sides_lem _ url range e) in
    (subst (λ n. IsWritten raw n lo hi) a (codes_of_lem raw url range _ lo hi w refl b), c, d, f)

pub parse_health_range-IsRange :
    (raw url : Text) (lo hi : ℕ)
    → parse_health_range raw ≡ ok (url, lo, hi)
    → IsRange raw (url, lo, hi)
unfolding parse_health_range
parse_health_range-IsRange raw url lo hi h = health_range_of_lem raw _ url lo hi refl h

-- The check of a value: PATH=MIN-MAX with its numbers, or the whole value as a path with the range
-- from 200 to 399.
abbrev pub IsValue : Text → VerificationCheck → Type 0
IsValue raw c =
    IsWritten raw c.path c.min_code c.max_code
    ⊎ ((c.path ≡ raw) × (c.min_code ≡ 200) × (c.max_code ≡ 399))

check_of_range-IsValue :
    (raw path range : Text) (o : Option (Option (ℕ × ℕ)))
    → raw ≡ path ++ b'=' ∷ range
    → codes_of (cut b'-' range) ≡ o
    → IsValue raw (check_of_range raw path o)
check_of_range-IsValue raw path range none w e = inr (refl, refl, refl)
check_of_range-IsValue raw path range (some none) w e = inr (refl, refl, refl)
check_of_range-IsValue raw path range (some (some (lo, hi))) w e =
    inl (codes_of_lem raw path range _ lo hi w refl e)

check_of-IsValue :
    (raw : Text) (o : Option (Text × Text))
    → both_sides (cut_last b'=' raw) ≡ o
    → IsValue raw (check_of raw o)
check_of-IsValue raw none e = inr (refl, refl, refl)
check_of-IsValue raw (some (path, range)) e =
    check_of_range-IsValue raw path range _
      (cut_last_written b'=' raw path range (both_sides_lem _ path range e)) refl

checked_check_lem : (net : Net) (c d : VerificationCheck) → checked_check net c ≡ ok d → c ≡ d
checked_check_lem net c d h = elim (Outcome-cases (validate_verification_path net c.path)) [
  | inl (tt, e) ↦ ground arith
  | inr (x, e) ↦ absurd (ground arith)
]

pub parse_verification_check-IsValue :
    (net : Net) (raw : Text) (c : VerificationCheck)
    → parse_verification_check net raw ≡ ok c
    → IsValue raw c × IsCheck net c
unfolding parse_verification_check
parse_verification_check-IsValue net raw c h = (
  subst (IsValue raw) (checked_check_lem net _ c h) (check_of-IsValue raw _ refl),
  parse_verification_check-IsCheck net raw c h,
)

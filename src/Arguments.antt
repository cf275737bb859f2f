-- ===== src/Arguments.antt =====
-- The functions of cmd/tailpreview/main.go that read the values of flags.
pub mod Sound
pub mod Written
use tailpreview.Base.{
  ℕ, zero, suc, ◌+◌, ◌-◌, ◌*◌, Bool, true, false, not, ◌&&◌, ◌||◌, Option, none, some, List, [],
  ◌∷◌, ◌++◌, map, ltb, leb, ◌==◌, if◌then◌else◌, ◌≡◌, refl,
}
use tailpreview.Base.Lists.{any}
use tailpreview.Base.Strings.{Text, codes, text_eq, has_prefix, cut, cut_last, is_empty}
use tailpreview.Base.Outcome.{Outcome, ok, err, ◌>>=◌}
use tailpreview.Model.{Route, HealthCheck, VerificationCheck}
use tailpreview.Url.{Net}
use tailpreview.Errors.{Error, plain, quoting, wrapped}
use tailpreview.Config.Upstream.{validate_verification_path}
use tailpreview.Config.Validate.{guard, relabel, is_bad_range}

-- The value of decimal digits, after those that were read.
digits : ℕ → Text → Option ℕ
digits acc [] = some acc
digits acc (c ∷ s) = if leb b'0' c && leb c b'9' then digits (acc * 10 + (c - b'0')) s else none

-- The least number that is no int64.
abbrev int_limit : ℕ
int_limit = 9223372036854775808

abbrev in_int : Option ℕ → Option ℕ
in_int none = none
in_int (some n) = if ltb n int_limit then some n else none

-- A negative number counts as zero: the ranges refuse both.
abbrev below_zero : Option ℕ → Option ℕ
below_zero none = none
below_zero (some n) = if leb n int_limit then some 0 else none

unsigned : Text → Option ℕ
unfolding digits
unsigned [] = none
unsigned (c ∷ s) = digits 0 (c ∷ s)

-- strconv.Atoi
unfoldable pub atoi : Text → Option ℕ
unfolding unsigned
atoi [] = none
atoi (c ∷ s) =
    if c == b'+'
    then in_int (unsigned s)
    else if c == b'-'
    then below_zero (unsigned s)
    else in_int (unsigned (c ∷ s))

-- The last "=", if a text stands on both of its sides.
abbrev pub both_sides : Option (Text × Text) → Option (Text × Text)
both_sides none = none
both_sides (some (l, r)) = if is_empty l || is_empty r then none else some (l, r)

-- MIN-MAX: `none` without "-", `some none` where one of the numbers is none.
abbrev pub both_codes : Option ℕ → Option ℕ → Option (ℕ × ℕ)
both_codes (some a) (some b) = some (a, b)
both_codes (some a) none = none
both_codes none b = none

abbrev pub codes_of : Option (Text × Text) → Option (Option (ℕ × ℕ))
codes_of none = none
codes_of (some (l, r)) = some (both_codes (atoi l) (atoi r))

abbrev pub health_format : Error
health_format = plain "--health-range must use URL=MIN-MAX"

abbrev pub health_codes : Error
health_codes = plain "--health-range status codes must satisfy 100 <= MIN <= MAX <= 599"

abbrev pub checked_range : Text → Option (Option (ℕ × ℕ)) → Outcome Error (Text × ℕ × ℕ)
checked_range url none = err health_format
checked_range url (some none) = err health_codes
checked_range url (some (some (lo, hi))) =
    if ltb lo 100 || ltb 599 hi || ltb hi lo then err health_codes else ok (url, lo, hi)

abbrev pub health_range_of : Option (Text × Text) → Outcome Error (Text × ℕ × ℕ)
health_range_of none = err health_format
health_range_of (some (url, range)) = checked_range url (codes_of (cut b'-' range))

unfoldable pub parse_health_range : Text → Outcome Error (Text × ℕ × ℕ)
unfolding cut cut_last atoi
parse_health_range value = health_range_of (both_sides (cut_last b'=' value))

abbrev pub check_of_range : Text → Text → Option (Option (ℕ × ℕ)) → VerificationCheck
check_of_range value path (some (some (lo, hi))) = record {
  path = path;
  min_code = lo;
  max_code = hi;
}
check_of_range value path (some none) = record { path = value; min_code = 200; max_code = 399 }
check_of_range value path none = record { path = value; min_code = 200; max_code = 399 }

abbrev pub check_of : Text → Option (Text × Text) → VerificationCheck
check_of value none = record { path = value; min_code = 200; max_code = 399 }
check_of value (some (path, range)) = check_of_range value path (codes_of (cut b'-' range))

abbrev pub checked_check : Net → VerificationCheck → Outcome Error VerificationCheck
checked_check net c = elim (validate_verification_path net c.path) [
  | err e ↦ err (wrapped "--verify" e)
  | ok _ ↦
      if is_bad_range c.min_code c.max_code
      then err (plain "--verify status range must satisfy 200 <= MIN <= MAX <= 399")
      else ok c
]

unfoldable pub parse_verification_check : Net → Text → Outcome Error VerificationCheck
unfolding cut cut_last atoi
parse_verification_check net value =
    checked_check net (check_of value (both_sides (cut_last b'=' value)))

unfoldable pub contains_arg : List Text → Text → Bool
unfolding text_eq has_prefix
contains_arg args wanted = any (λ a. text_eq a wanted || has_prefix a (wanted ++ codes "=")) args

unfoldable pub find_health : List HealthCheck → Text → Option HealthCheck
unfolding text_eq
find_health [] url = none
find_health (c ∷ cs) url = if text_eq c.url url then some c else find_health cs url

-- The inner loop of applyRouteBooleans: the routes of one path, changed.
unfoldable pub apply_to : (Route → Route) → Text → List Route → List Route
apply_to f wanted routes = map (λ r. if text_eq r.path wanted then f r else r) routes

unfoldable pub is_routed : Text → List Route → Bool
is_routed wanted routes = any (λ r. text_eq r.path wanted) routes

unfoldable pub apply_route_booleans :
    (Route → Route) → List Text → List Route → Outcome Error (List Route)
apply_route_booleans f [] routes = ok routes
apply_route_booleans f (p ∷ ps) routes =
    let rest = apply_route_booleans f ps (apply_to f p routes) in
    if is_routed p routes
    then rest
    else err (quoting "route path does not match a configured route" p)

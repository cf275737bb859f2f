-- ===== src/Config/Values/Printed.antt =====
-- ParseRoute of internal/config/config.go as the inverse of writing PATH=URL.
use tailpreview.Base.{
  ℕ, ◌≡◌, refl, subst, ap, ◌∙◌, ◌↔◌, Bool, false, ◌||◌, Option, none, some, [], ◌∷◌, ◌++◌, arith,
  ◌==◌, Option-cases, if◌then◌else◌,
}
use tailpreview.Base.Lists.{All}
use tailpreview.Base.Strings.{Text, cut, is_empty}
use tailpreview.Base.Outcome.{Outcome, ok, err}
use tailpreview.Model.{Route}
use tailpreview.Errors.{Error}
use tailpreview.Config.Values.{route_error, parse_route}

-- The character stands nowhere in the text.
abbrev pub IsWithout : ℕ → Text → Type 0
IsWithout c s = All (λ a. (a == c) ≡ false) s

pub cut_lem : (c : ℕ) (s l r : Text) → cut c s ≡ some (l, r) → (s ≡ l ++ c ∷ r) × IsWithout c l
unfolding cut
cut_lem c [] l r h = absurd (cc h)
cut_lem c (a ∷ s) [] r h = ground (arith, Option-cases (cut c s))
cut_lem c (a ∷ s) (b ∷ l) r h = ground (arith, Option-cases (cut c s), cut_lem c s l r)

cut_printed : (c : ℕ) (l r : Text) → IsWithout c l → cut c (l ++ c ∷ r) ≡ some (l, r)
unfolding cut
cut_printed c [] r h = ground arith
cut_printed c (a ∷ l) r h = ground (arith, cut_printed c l r h.1)

-- PATH=URL
abbrev pub printed_route : Route → Text
printed_route r = r.path ++ b'=' ∷ r.upstream

-- A route that ParseRoute can return.
pub record IsPlain (r : Route) : Type 0 where
  pub path_given : is_empty r.path ≡ false
  pub path_without : IsWithout b'=' r.path
  pub upstream_given : is_empty r.upstream ≡ false
  pub unmarked : (r.strip_prefix ≡ false) × (r.insecure_skip_verify ≡ false)

abbrev on_parts : Option (Text × Text) → Outcome Error Route
on_parts none = err route_error
on_parts (some (path, upstream)) =
    if is_empty path || is_empty upstream
    then err route_error
    else ok (record {
      path = path;
      upstream = upstream;
      strip_prefix = false;
      insecure_skip_verify = false;
    })

on_parts_lem :
    (value : Text) (o : Option (Text × Text)) (r : Route)
    → cut b'=' value ≡ o
    → on_parts o ≡ ok r
    → (value ≡ printed_route r) × IsPlain r
on_parts_lem value none r e h = absurd (cc h)
on_parts_lem value (some (path, upstream)) r e h =
    let (a, b) = cut_lem b'=' value path upstream e in
    let given : is_empty path || is_empty upstream ≡ false = ground arith in
    let same : record {
      path = path;
      upstream = upstream;
      strip_prefix = false;
      insecure_skip_verify = false;
    }
        ≡ r =
      ground arith in
    subst (λ s. (value ≡ printed_route s) × IsPlain s) same
      (
        a,
        record {
          path_given = ground arith;
          path_without = b;
          upstream_given = ground arith;
          unmarked = (refl, refl);
        },
      )

plain_route :
    (r : Route) (b c : Bool)
    → b ≡ false
    → c ≡ false
    → Path
        (Outcome Error Route)
        (ok (record {
          path = r.path;
          upstream = r.upstream;
          strip_prefix = false;
          insecure_skip_verify = false;
        }))
        (ok (record {
          path = r.path;
          upstream = r.upstream;
          strip_prefix = b;
          insecure_skip_verify = c;
        }))
plain_route r b c h k = rw (h, k) refl

on_plain : (r : Route) → IsPlain r → on_parts (some (r.path, r.upstream)) ≡ ok r
on_plain r p =
    rw (p.path_given, p.upstream_given)
      (plain_route r r.strip_prefix r.insecure_skip_verify p.unmarked.0 p.unmarked.1)

-- ParseRoute returns a route exactly when its text is PATH=URL of that route, where neither part is
-- empty and the path has no "=", and the route has neither mark.
pub parse_route_iff-IsPlain :
    (value : Text) (r : Route)
    → (parse_route value ≡ ok r) ↔ ((value ≡ printed_route r) × IsPlain r)
unfolding parse_route
parse_route_iff-IsPlain value r = (
  λ h. on_parts_lem value (cut b'=' value) r refl h,
  λ (e, p).
      ap (λ v. on_parts (cut b'=' v)) e
      ∙ ap on_parts (cut_printed b'=' r.path r.upstream p.path_without)
      ∙ on_plain r p,
)

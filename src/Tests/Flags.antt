-- ===== src/Tests/Flags.antt =====
-- The functions on the values of flags, and the theorem on names, at concrete values.
use tailpreview.Base.{◌≡◌, refl, true, [], ◌∷◌}
use tailpreview.Base.Strings.{codes, text_eq, cut, cut_last, has_prefix, contains_any}
use tailpreview.Base.Outcome.{ok}
use tailpreview.Model.{Route, VerificationCheck}
use tailpreview.Url.{is_abs}
use tailpreview.Config.Upstream.{validate_verification_path}
use tailpreview.Config.Validate.{is_bad_range}
use tailpreview.Arguments.{
  atoi, parse_verification_check, apply_route_booleans, apply_to, is_routed,
}
use tailpreview.Base.Lists.{All}
use tailpreview.Service.Naming.{slug}
use tailpreview.Service.Slug.{IsSlugRune, HeadOk, LastOk, slug_lem}
use tailpreview.Tests.Fixtures.{toy_net, web_route}

abbrev docs_check : VerificationCheck
docs_check = record { path = codes "/docs"; min_code = 200; max_code = 299 }

parses : parse_verification_check toy_net (codes "/docs=200-299") ≡ ok docs_check
unfolding parse_verification_check cut cut_last atoi validate_verification_path is_bad_range
    has_prefix contains_any is_abs
parses = refl

abbrev strip : Route → Route
strip r = record r { strip_prefix = true }

applies : apply_route_booleans strip (codes "/*" ∷ []) (web_route ∷ []) ≡ ok (strip web_route ∷ [])
unfolding apply_route_booleans apply_to is_routed text_eq
applies = refl

slug_lem_example :
    All IsSlugRune (slug (codes " My_App (2) "))
    × HeadOk (slug (codes " My_App (2) "))
    × LastOk (slug (codes " My_App (2) "))
slug_lem_example = slug_lem (codes " My_App (2) ")

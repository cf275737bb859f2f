-- ===== src/Config/Values.antt =====
-- ParseRoute and ParseSet of internal/config/config.go.
pub mod Printed
use tailpreview.Base.{false, ◌||◌, Option, none, some, List, [], ◌∷◌, if◌then◌else◌}
use tailpreview.Base.Strings.{Text, text_eq, is_empty, cut}
use tailpreview.Base.Outcome.{Outcome, ok, err}
use tailpreview.Model.{Route}
use tailpreview.Errors.{Error, plain}

abbrev pub route_error : Error
route_error = plain "route must use PATH=URL"

unfoldable pub parse_route : Text → Outcome Error Route
parse_route value = elim (cut b'=' value) [
  | none ↦ err route_error
  | some (path, upstream) ↦
      if is_empty path || is_empty upstream
      then err route_error
      else ok (record {
        path = path;
        upstream = upstream;
        strip_prefix = false;
        insecure_skip_verify = false;
      })
]

-- A map from names to values: `result[k] = v`.
unfoldable pub insert : Text → Text → List (Text × Text) → List (Text × Text)
insert k v [] = (k, v) ∷ []
insert k v ((j, w) ∷ m) = if text_eq j k then (k, v) ∷ m else (j, w) ∷ insert k v m

unfoldable pub lookup : Text → List (Text × Text) → Option Text
lookup k [] = none
lookup k ((j, v) ∷ m) = if text_eq j k then some v else lookup k m

parse_set_from : List Text → List (Text × Text) → Outcome Error (List (Text × Text))
unfolding insert
parse_set_from [] acc = ok acc
parse_set_from (value ∷ rest) acc = elim (cut b'=' value) [
  | none ↦ err (plain "--set must use NAME=VALUE")
  | some (name, v) ↦
      if is_empty name
      then err (plain "--set must use NAME=VALUE")
      else parse_set_from rest (insert name v acc)
]

unfoldable pub parse_set : List Text → Outcome Error (List (Text × Text))
unfolding parse_set_from
parse_set values = parse_set_from values []

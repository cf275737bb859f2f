-- ===== src/Cli/Flags.antt =====
-- How `up` of cmd/tailpreview/main.go puts its flags over the configuration of the file.
use tailpreview.Base.{
  ℕ, Bool, true, false, ◌&&◌, Option, none, some, List, [], ◌∷◌, ◌++◌, map, if◌then◌else◌,
}
use tailpreview.Base.Strings.{Text, codes, text_eq, is_empty, contains}
use tailpreview.Base.Outcome.{Outcome, ok, err, ◌>>=◌}
use tailpreview.Model.{Route, HealthCheck}
use tailpreview.Url.{Net}
use tailpreview.Errors.{Error, plain, quoting}
use tailpreview.Config.{Resolved}
use tailpreview.Config.Values.{parse_route, parse_set}
use tailpreview.Config.Decode.{Yaml, parse_duration}
use tailpreview.Config.Load.{each, Loaded, load}
use tailpreview.Config.Discover.{path_text}
use tailpreview.Arguments.{
  apply_route_booleans, parse_health_range, parse_verification_check, find_health,
}
use tailpreview.Service.Up.{UpRequest}
use tailpreview.Cli.{Shell, UpFlags}
use tailpreview.Cli.Project.{derive_project_name, find_project, optional_path}

-- `--route`
abbrev pub with_routes : List Text → Resolved → Outcome Error Resolved
with_routes [] r = ok r
with_routes (raw ∷ more) r =
    each parse_route (raw ∷ more) >>= λ routes. ok (record r { routes = routes })

abbrev pub catch_all_route : Text → Route
catch_all_route upstream = record {
  path = codes "/*";
  upstream = upstream;
  strip_prefix = false;
  insecure_skip_verify = false;
}

-- The positional upstream, beside the flags `--route`.
abbrev pub with_positional : List Text → List Text → Resolved → Outcome Error Resolved
with_positional [] routes r = ok r
with_positional (upstream ∷ []) [] r = ok (record r { routes = catch_all_route upstream ∷ [] })
with_positional (upstream ∷ []) (_ ∷ _) r =
    err (plain "positional upstream and --route cannot be combined")
with_positional (upstream ∷ _ ∷ _) routes r =
    err (plain "up accepts at most one positional upstream URL")

abbrev pub strip : Route → Route
strip route = record route { strip_prefix = true }

abbrev pub skip_verify : Route → Route
skip_verify route = record route { insecure_skip_verify = true }

unfoldable pub with_route_booleans : List Text → List Text → Resolved → Outcome Error Resolved
unfolding apply_route_booleans
with_route_booleans strip_prefixes insecure r = do
  stripped ← apply_route_booleans strip strip_prefixes r.routes
  routes ← apply_route_booleans skip_verify insecure stripped
  ok (record r { routes = routes })

abbrev pub health_at : Bool → Text → HealthCheck
health_at required url = record {
  url = url;
  required = required;
  min_code = 200;
  max_code = 399;
  insecure_skip_verify = false;
}

-- `--health` and `--optional-health`
abbrev pub with_health_urls : List Text → List Text → Resolved → Resolved
with_health_urls [] [] r = r
with_health_urls [] (u ∷ us) r = record r { health = map (health_at false) (u ∷ us) }
with_health_urls (u ∷ us) optional r = record r {
  health = map (health_at true) (u ∷ us) ++ map (health_at false) optional;
}

-- The first check of a URL, changed through the pointer that findHealth returns.
unfoldable pub change_health :
    (HealthCheck → HealthCheck) → Text → List HealthCheck → List HealthCheck
unfolding text_eq
change_health f url [] = []
change_health f url (c ∷ cs) =
    let rest : List HealthCheck = c ∷ change_health f url cs in
    if text_eq c.url url then f c ∷ cs else rest

abbrev pub changed_if :
    Option HealthCheck → Error → List HealthCheck → Outcome Error (List HealthCheck)
changed_if none e cs = err e
changed_if (some _) e cs = ok cs

abbrev pub in_range : ℕ → ℕ → HealthCheck → HealthCheck
in_range lo hi c = record c { min_code = lo; max_code = hi }

abbrev pub set_range : Text × ℕ × ℕ → List HealthCheck → Outcome Error (List HealthCheck)
set_range (url, lo, hi) cs =
    changed_if (find_health cs url)
      (quoting "--health-range URL does not match a configured health check" url)
      (change_health (in_range lo hi) url cs)

-- `--health-range`
unfoldable pub with_ranges : List Text → List HealthCheck → Outcome Error (List HealthCheck)
unfolding find_health change_health
with_ranges [] cs = ok cs
with_ranges (raw ∷ more) cs = do
  range ← parse_health_range raw
  changed ← set_range range cs
  with_ranges more changed

abbrev pub skip_health_verify : HealthCheck → HealthCheck
skip_health_verify c = record c { insecure_skip_verify = true }

-- `--insecure-health`
unfoldable pub with_insecure_health :
    List Text → List HealthCheck → Outcome Error (List HealthCheck)
unfolding find_health change_health
with_insecure_health [] cs = ok cs
with_insecure_health (url ∷ more) cs = do
  changed ←
      changed_if (find_health cs url)
        (quoting "--insecure-health URL does not match a configured health check" url)
        (change_health skip_health_verify url cs)
  with_insecure_health more changed

-- `--verify`
abbrev pub with_verify : Net → List Text → Resolved → Outcome Error Resolved
with_verify net [] r = ok r
with_verify net (raw ∷ more) r =
    each (parse_verification_check net) (raw ∷ more) >>= λ cs. ok (record r { verify = cs })

-- `--ttl` and `--max-age` over a lifetime.
abbrev pub with_lifetime : Yaml → Text → ℕ → Outcome Error ℕ
with_lifetime yaml [] d = ok d
with_lifetime yaml (c ∷ s) d = parse_duration yaml (c ∷ s)

-- The flags over the configuration, in the order of `up`.
unfoldable pub merge_flags : Shell → UpFlags → Resolved → Outcome Error Resolved
unfolding with_route_booleans with_ranges with_insecure_health
merge_flags shell flags r = do
  routed ← with_routes flags.routes r
  placed ← with_positional flags.positional flags.routes routed
  marked ← with_route_booleans flags.strip_prefixes flags.insecure_routes placed
  let checked : Resolved = with_health_urls flags.health flags.optional_health marked
  ranged ← with_ranges flags.health_ranges checked.health
  health ← with_insecure_health flags.insecure_health ranged
  verified ← with_verify shell.net flags.verify (record checked { health = health })
  idle ← with_lifetime shell.files.yaml flags.ttl verified.idle_ttl
  age ← with_lifetime shell.files.yaml flags.max_age verified.max_age
  ok (record verified { idle_ttl = idle; max_age = age })

-- strings.Contains of the text of an error without values.
abbrev pub says_no_route : Error → Bool
says_no_route (plain s) = contains (codes s) (codes "at least one route")
says_no_route _ = false

-- An error of Load ends the command, but for that of a missing route without a file.
abbrev pub loaded_or_error : Text → Loaded → Outcome Error Resolved
loaded_or_error path (r, ok _) = ok r
loaded_or_error path (r, err e) = if is_empty path && says_no_route e then ok r else err e

abbrev pub request_name : Shell → Text → Text → Text → Text
request_name shell root [] [] = derive_project_name shell root
request_name shell root [] (c ∷ s) = []
request_name shell root (c ∷ s) configured = c ∷ s

-- cli.up up to the call of Service.Up.
unfoldable pub up_request : Shell → UpFlags → Outcome Error UpRequest
unfolding parse_set find_project path_text load merge_flags
up_request shell flags = do
  values ← parse_set flags.sets
  place ← find_project shell flags
  let path : Text = optional_path place.0
  let root : Text = path_text place.1
  file ← loaded_or_error path (load shell.net shell.files path root values)
  merged ← merge_flags shell flags file
  ok (record {
    config = merged;
    name = request_name shell root flags.name merged.name;
    port = flags.port;
    skip_health = flags.skip_health;
  })

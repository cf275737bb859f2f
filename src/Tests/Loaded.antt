-- ===== src/Tests/Loaded.antt =====
-- The theorems on Load, substitute and Discover at a document with one health check that does not say
-- `required`, and at a small file system.
use tailpreview.Base.{
  zero, true, false, ◌≡◌, refl, subst, none, some, List, [], ◌∷◌, arith, if◌then◌else◌,
}
use tailpreview.Base.Lists.{All}
use tailpreview.Base.Strings.{
  Text, codes, cut, cut_last, text_eq, text_eq_iff, has_prefix, contains_any, trim_suffix, to_lower,
  lower_rune,
}
use tailpreview.Base.Outcome.{ok, err}
use tailpreview.Model.{HealthCheck}
use tailpreview.Url.{hostname, is_abs, split_host_port}
use tailpreview.Config.{Resolved, defaults, default_verify, hour}
use tailpreview.Config.Values.{lookup}
use tailpreview.Config.Upstream.{
  validate_upstream, check_parsed, check_host, validate_verification_path,
}
use tailpreview.Config.Validate.{
  validate, validate_routes, validate_health, validate_checks, is_catch_all, normalize_health,
  is_bad_range,
}
use tailpreview.Config.Substitute.{
  substitute, pieces, variable_at, filled_text, missing_names, value_of,
}
use tailpreview.Config.Decode.{
  scalar, mapping, Members, no_members, member, Yaml, node_value, check_health_keys,
  unmarshal_health,
}
use tailpreview.Config.Load.{
  Field, version_field, routes_field, health_field, Files, decode_fields, merged, read_file, load,
}
use tailpreview.Config.Load.Optional.{HasNoKey, LeavesFalse, IsUnmarkedField}
use tailpreview.Config.Load.Sound.{unmarked_checks_pass}
use tailpreview.Config.Substitute.Pieces.{IsScan, pieces-IsScan}
use tailpreview.Config.Substitute.Missing.{Answers, substitute-Answers}
use tailpreview.Config.Discover.{Elements, Disk, Place, discover, start_directory}
use tailpreview.Config.Discover.Nearest.{IsPlace, discover-IsPlace}
use tailpreview.Health.{Site}
use tailpreview.Health.Check.{wait_healthy, check_all_once}
use tailpreview.Tests.Fixtures.{toy_net, web_route}

-- Decode for `url` and `required`.
pub decode_members : Members → HealthCheck
unfolding text_eq
decode_members no_members = record {
  url = [];
  required = false;
  min_code = 0;
  max_code = 0;
  insecure_skip_verify = false;
}
decode_members (member key v ms) =
    let rest : HealthCheck = decode_members ms in
    if text_eq key (codes "url")
    then record rest { url = node_value v }
    else if text_eq key (codes "required")
    then record rest { required = text_eq (node_value v) (codes "true") }
    else rest

abbrev pub toy_yaml : Yaml
toy_yaml = record {
  decode_health = λ ms. ok (decode_members ms);
  decode_verification = λ ms. err (codes "no");
  parse_duration = λ s. err (codes "no");
}

abbrev pub toy_fields : List Field
toy_fields =
    version_field 1
    ∷ routes_field (web_route ∷ [])
    ∷ health_field
        (mapping (member (codes "url") (scalar (codes "http://127.0.0.1")) no_members) ∷ [])
    ∷ []

abbrev pub toy_files : Files
toy_files = record {
  yaml = toy_yaml;
  read = λ path. ok (codes "port: ${PORT}");
  environment = λ name. none;
  parse = λ text. ok toy_fields;
}

abbrev values : List (Text × Text)
values = (codes "PORT", codes "3000") ∷ []

abbrev toy_config : Resolved
toy_config = record defaults {
  path = codes "/a/.tailpreview.yml";
  project_root = codes "/a";
  routes = web_route ∷ [];
  health =
      record {
        url = codes "http://127.0.0.1";
        required = false;
        min_code = 0;
        max_code = 0;
        insecure_skip_verify = false;
      }
      ∷ [];
}

loads :
    load toy_net toy_files (codes "/a/.tailpreview.yml") (codes "/a") values ≡ (toy_config, ok tt)
unfolding load merged defaults read_file substitute pieces variable_at filled_text missing_names
    value_of lookup text_eq decode_fields decode_members unmarshal_health check_health_keys is_abs
    validate validate_routes validate_upstream check_parsed check_host validate_health
    validate_checks validate_verification_path is_catch_all normalize_health is_bad_range cut
    cut_last has_prefix contains_any trim_suffix to_lower lower_rune hostname split_host_port
loads = refl

decode_members_lem :
    (ms : Members) → HasNoKey (codes "required") ms → (decode_members ms).required ≡ false
unfolding decode_members
decode_members_lem no_members h = refl
decode_members_lem (member key v ms) h = ground (
  arith,
  decode_members_lem ms h.1,
  text_eq_iff key (codes "required"),
  text_eq_iff key (codes "url"),
)

toy_yaml-LeavesFalse : LeavesFalse toy_yaml
toy_yaml-LeavesFalse ms c u h =
    let same : decode_members ms ≡ c = ground arith in
    subst (λ d. d.required ≡ false) same (decode_members_lem ms u)

toy_fields_unmarked : All IsUnmarkedField toy_fields
toy_fields_unmarked = (tt, (tt, ((((λ p. absurd (cc p)), tt), tt), tt)))

expands : substitute values (λ _. none) (codes "port: ${PORT}") ≡ ok (codes "port: 3000")
unfolding substitute pieces variable_at filled_text missing_names value_of lookup text_eq
expands = refl

-- Nothing answers.
abbrev dead_site : Site
dead_site = record {
  request_error = λ _. none;
  get = λ h _. err (codes "refused");
  now = λ h. 0;
  stopped = λ _. none;
}

unmarked_checks_pass_example :
    (check_all_once dead_site [] toy_config.health ≡ none)
    × (wait_healthy dead_site 0 toy_config.health [] ≡ some none)
unmarked_checks_pass_example =
    unmarked_checks_pass toy_files (codes "/a/.tailpreview.yml") values toy_yaml-LeavesFalse
      (codes "port: ${PORT}") (codes "port: 3000") toy_fields refl expands refl toy_fields_unmarked
      toy_net (codes "/a") toy_config loads dead_site 0 []

-- Of /a/b and the directories above only /a has `.git`, and /a/b has a configuration file.
abbrev toy_disk : Disk
toy_disk = record {
  absolute = λ s. ok (codes "b" ∷ codes "a" ∷ []);
  stat = λ p. elim p [
    | [] ↦ some true
    | e ∷ es ↦
        if text_eq e (codes ".git")
        then elim es [ [] ↦ none | d ∷ ds ↦ if text_eq d (codes "a") then some true else none ]
        else if text_eq e (codes ".tailpreview.yml")
        then elim es [ [] ↦ none | d ∷ ds ↦ if text_eq d (codes "b") then some false else none ]
        else some true
  ];
}

discover-IsPlace_example :
    (place : Place) × discover toy_disk [] ≡ ok place
    × IsPlace toy_disk
        (start_directory toy_disk (codes "b" ∷ codes "a" ∷ []))
        (start_directory toy_disk (codes "b" ∷ codes "a" ∷ []))
        place
discover-IsPlace_example = discover-IsPlace toy_disk [] (codes "b" ∷ codes "a" ∷ []) refl

discovers :
    discover toy_disk []
    ≡ ok (some (codes ".tailpreview.yml" ∷ codes "b" ∷ codes "a" ∷ []), codes "a" ∷ [])
unfolding discover tailpreview.Config.Discover.climb tailpreview.Config.Discover.find_git_root
    tailpreview.Config.Discover.git_root_from text_eq
discovers = refl

pieces-IsScan_example : IsScan (pieces zero (codes "u: ${PORT}$x")) (codes "u: ${PORT}$x")
pieces-IsScan_example = pieces-IsScan (codes "u: ${PORT}$x")

substitute-Answers_example :
    Answers values
      (λ _. none)
      (pieces zero (codes "${PORT}${HOST}"))
      (substitute values (λ _. none) (codes "${PORT}${HOST}"))
substitute-Answers_example = substitute-Answers values (λ _. none) (codes "${PORT}${HOST}")

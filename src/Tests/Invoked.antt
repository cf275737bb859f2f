-- ===== src/Tests/Invoked.antt =====
-- The theorems on the command line at concrete flags, in a project without a configuration file.
use tailpreview.Base.{◌≡◌, ◌↔◌, ◌⊎◌, refl, true, false, none, some, [], ◌∷◌}
use tailpreview.Base.Strings.{codes, text_eq, cut, cut_last}
use tailpreview.Base.Outcome.{ok}
use tailpreview.Config.{Resolved, defaults}
use tailpreview.Config.Values.{parse_route}
use tailpreview.Config.Values.Printed.{printed_route, IsPlain, parse_route_iff-IsPlain}
use tailpreview.Config.Discover.{Disk}
use tailpreview.Arguments.{
  atoi, parse_health_range, apply_route_booleans, apply_to, is_routed, find_health,
}
use tailpreview.Service.Valid.{IsValid}
use tailpreview.Cli.{Shell, UpFlags}
use tailpreview.Cli.Flags.{
  with_route_booleans, change_health, with_ranges, with_insecure_health, merge_flags,
}
use tailpreview.Cli.Merged.{IsMerged, merge_flags-IsMerged}
use tailpreview.Cli.Project.{selector_from_args}
use tailpreview.Errors.{not_found}
use tailpreview.Host.Calls.{with_registry, lock, load, close}
use tailpreview.Service.Select.{find_preview, find_by}
use tailpreview.Service.Down.{down}
use tailpreview.Cli.Program.Failed.{Missed, failed_invocation_keeps_registry}
use tailpreview.Cli.Program.{up_with, down_with, status_with, collect_garbage, run_program, execute}
use tailpreview.Cli.Program.Steps.{IsStep, execute-IsStep, run_program-IsValid}
use tailpreview.Tests.Fixtures.{toy_net, good, start, web_route}
use tailpreview.Tests.Witnesses.{two_previews-IsValid}
use tailpreview.Tests.Loaded.{toy_files}

abbrev bare_disk : Disk
bare_disk = record { absolute = λ s. ok (codes "three" ∷ codes "a" ∷ []); stat = λ p. none }

abbrev shell : Shell
shell = record {
  working_directory = ok (codes "/a/three");
  disk = bare_disk;
  files = toy_files;
  net = toy_net;
  git_branch = λ root. some (codes "main\n");
  git_commit = λ root. none;
}

abbrev flags : UpFlags
flags = record {
  routes = [];
  sets = [];
  health = codes "http://127.0.0.1" ∷ [];
  optional_health = [];
  health_ranges = codes "http://127.0.0.1=200-204" ∷ [];
  verify = [];
  strip_prefixes = [];
  insecure_routes = codes "/*" ∷ [];
  insecure_health = [];
  name = [];
  config_path = [];
  project_root = [];
  port = 0;
  ttl = [];
  max_age = [];
  skip_health = false;
  positional = codes "http://127.0.0.1" ∷ [];
}

abbrev merged : Resolved
merged = record defaults {
  routes = record web_route { insecure_skip_verify = true } ∷ [];
  health =
      record {
        url = codes "http://127.0.0.1";
        required = true;
        min_code = 200;
        max_code = 204;
        insecure_skip_verify = false;
      }
      ∷ [];
}

merges : merge_flags shell flags defaults ≡ ok merged
unfolding defaults merge_flags with_route_booleans apply_route_booleans apply_to is_routed text_eq
    with_ranges parse_health_range cut cut_last atoi find_health change_health with_insecure_health
merges = refl

merge_flags-IsMerged_example : IsMerged toy_net toy_files.yaml flags defaults merged
merge_flags-IsMerged_example = merge_flags-IsMerged shell flags defaults merged merges

parse_route_iff-IsPlain_example :
    (parse_route (codes "/*=http://127.0.0.1") ≡ ok web_route)
    ↔ ((codes "/*=http://127.0.0.1" ≡ printed_route web_route) × IsPlain web_route)
parse_route_iff-IsPlain_example = parse_route_iff-IsPlain (codes "/*=http://127.0.0.1") web_route

execute-IsStep_example :
    IsStep good shell
      (codes "/logs")
      start
      (up_with flags)
      (execute good shell (codes "/logs") (up_with flags) start)
execute-IsStep_example = execute-IsStep good shell (codes "/logs") start (up_with flags)

failed_invocation_keeps_registry_example :
    ((execute good shell (codes "/logs") (down_with (codes "nobody" ∷ [])) start).1.disk
      ≡ start.disk)
    ⊎ Missed good shell
        (codes "/logs")
        start
        (down_with (codes "nobody" ∷ []))
        (execute good shell (codes "/logs") (down_with (codes "nobody" ∷ [])) start)
unfolding execute selector_from_args down with_registry lock load close find_preview text_eq find_by
failed_invocation_keeps_registry_example =
    failed_invocation_keeps_registry good shell (codes "/logs") start
      (down_with (codes "nobody" ∷ [])) (not_found (codes "nobody")) refl

run_program-IsValid_example :
    IsValid good
      (run_program good
        (codes "/logs")
        ((shell, up_with flags) ∷ (shell, status_with []) ∷ (shell, collect_garbage) ∷ [])
        start).disk
run_program-IsValid_example =
    run_program-IsValid good (codes "/logs")
      ((shell, up_with flags) ∷ (shell, status_with []) ∷ (shell, collect_garbage) ∷ []) start
      two_previews-IsValid

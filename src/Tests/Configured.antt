-- ===== src/Tests/Configured.antt =====
-- The theorems on Validate at the third project, and those on the health checks at a service that is
-- healthy from the second request on.
use tailpreview.Base.{◌≢◌, ◌*◌, ◌≡◌, ◌↔◌, refl, none, some, [], ◌∷◌, arith}
use tailpreview.Base.Lists.{length}
use tailpreview.Base.Strings.{
  codes, cut, cut_last, text_eq, has_prefix, contains_any, trim_suffix, to_lower, lower_rune,
}
use tailpreview.Base.Outcome.{ok, err}
use tailpreview.Url.{hostname, is_abs, split_host_port}
use tailpreview.Config.Upstream.{
  validate_upstream, check_parsed, check_host, validate_verification_path,
}
use tailpreview.Config.Validate.{
  validate, validate_routes, validate_health, validate_checks, is_catch_all, normalize_health,
  is_bad_range,
}
use tailpreview.Config.Sound.{IsSound, validate-IsSound}
use tailpreview.Health.{Site}
use tailpreview.Health.Check.{round_pause, check_all_once, wait_healthy, wait_timeout}
use tailpreview.Health.Wait.{AllHealthy, check_all_once_iff-AllHealthy}
use tailpreview.Health.Ends.{Ticks}
use tailpreview.Health.Passes.{Passes, wait_healthy_iff-Passes}
use tailpreview.Tests.Fixtures.{toy_net, third_config, web_check}

accepts : validate toy_net third_config ≡ ok tt
unfolding is_abs validate validate_routes validate_upstream check_parsed check_host validate_health
    validate_checks validate_verification_path is_catch_all normalize_health is_bad_range cut
    cut_last text_eq has_prefix contains_any trim_suffix to_lower lower_rune hostname
    split_host_port
accepts = refl

validate-IsSound_example : IsSound toy_net third_config
validate-IsSound_example = validate-IsSound toy_net third_config accepts

abbrev slow_site : Site
slow_site = record {
  request_error = λ _. none;
  get = λ h _. elim h [ [] ↦ err (codes "refused") | _ ∷ _ ↦ ok 200 ];
  now = λ h. length h * round_pause;
  stopped = λ _. none;
}

slow_site-Ticks : Ticks slow_site
slow_site-Ticks = record { forward = λ a h. omega arith; pauses = λ h. omega arith }

check_all_once_iff-AllHealthy_example :
    (check_all_once slow_site [] (web_check ∷ []) ≡ none) ↔ AllHealthy slow_site [] (web_check ∷ [])
check_all_once_iff-AllHealthy_example = check_all_once_iff-AllHealthy slow_site [] (web_check ∷ [])

wait_healthy_iff-Passes_example :
    (wait_healthy slow_site 0 (web_check ∷ []) [] ≢ none)
    × ((wait_healthy slow_site 0 (web_check ∷ []) [] ≡ some none)
        ↔ Passes slow_site (wait_timeout 0) (web_check ∷ []) [])
unfolding wait_timeout
wait_healthy_iff-Passes_example =
    wait_healthy_iff-Passes slow_site slow_site-Ticks 0 (web_check ∷ []) []

-- ===== src/Tests/Verified.antt =====
-- The theorems on the final verification at a URL whose start page redirects, and those on Check and
-- choosePort at the fixtures.
use tailpreview.Base.{◌≡◌, ◌≢◌, ◌↔◌, ◌<◌, refl, none, true, [], ◌∷◌}
use tailpreview.Base.Fold.{fold_rune, fold_by}
use tailpreview.Base.Strings.{codes, has_prefix, trim_suffix, text_eq, cut, cut_last, equal_fold}
use tailpreview.Base.Outcome.{ok}
use tailpreview.Model.{VerificationReport}
use tailpreview.Errors.{hostname_only}
use tailpreview.Url.{hostname, split_host_port}
use tailpreview.Host.{World, Status}
use tailpreview.Host.Calls.{
  check_once, tailscale_status, port_available, funnel_enabled_on_port, verify, save,
}
use tailpreview.Service.Select.{Found, normalize_preview}
use tailpreview.Service.Up.{require}
use tailpreview.Service.Check.{CheckResult, check_found, same_device, checked_preview}
use tailpreview.Service.Handoff.{Succeeds, handed_off, check_found_iff-IsHandedOff}
use tailpreview.Verification.Origin.{same_origin}
use tailpreview.Verification.Origin.Meaning.{AreSame, same_origin_iff-AreSame}
use tailpreview.Verification.Redirect.{check_redirect, follow}
use tailpreview.Verification.Bounds.{IsOver, follow_ends, check_redirect_iff-IsSafe}
use tailpreview.Verification.SameOrigin.{IsSafe}
use tailpreview.Verification.Run.{verify_url}
use tailpreview.Verification.Report.{IsGoodRun, verify_url-IsGoodRun}
use tailpreview.Verification.Deadline.{verify_url_ends}
use tailpreview.Tests.Fixtures.{good, start, two_previews, first_preview, stale_preview}
use tailpreview.Tests.Network.{
  page, path_net, login_web, start_check, path_net-ParsesPaths, login_web-Ticks,
}

verify_url-IsGoodRun_example :
    IsGoodRun path_net login_web
      (page [])
      (start_check ∷ [])
      (verify_url path_net login_web 0 (codes "dev") (start_check ∷ []) [])
unfolding has_prefix
verify_url-IsGoodRun_example =
    verify_url-IsGoodRun path_net login_web 0 (codes "dev") (start_check ∷ []) (page [])
      path_net-ParsesPaths refl

verify_url_ends_example :
    (verify_url path_net login_web 0 (codes "dev") (start_check ∷ []) []).0 ≢ none
verify_url_ends_example =
    verify_url_ends path_net login_web login_web-Ticks 0 (codes "dev") (start_check ∷ []) []

follow_ends_example :
    IsOver path_net login_web
      (page [])
      (codes "/")
      5
      []
      (follow path_net login_web (page []) (codes "/") 5 0 (page (codes "/")) [])
follow_ends_example = follow_ends path_net login_web (page []) (codes "/") (page (codes "/")) []

check_redirect_iff-IsSafe_example :
    (check_redirect path_net login_web (page []) (codes "/") 1 (page (codes "/login")) ≡ none)
    ↔ ((1 < 5) × IsSafe (page []) (page (codes "/login")))
check_redirect_iff-IsSafe_example =
    check_redirect_iff-IsSafe path_net login_web (page []) (codes "/") 1 (page (codes "/login"))

same_origin_iff-AreSame_example :
    (same_origin (page []) (page (codes "/login")) ≡ true)
    ↔ AreSame (page []) (page (codes "/login"))
same_origin_iff-AreSame_example = same_origin_iff-AreSame (page []) (page (codes "/login"))

abbrev first_found : Found
first_found = record { before = []; preview = first_preview; after = stale_preview ∷ [] }

abbrev running : Status
running = record {
  backend_state = codes "Running";
  dns_name = codes "dev.ts.net";
  online = true;
  key_expiry = [];
  magic_dns_suffix = codes "ts.net";
  magic_dns_enabled = true;
}

abbrev report : VerificationReport
report = record { verified_at = 7; checks = [] }

abbrev checked : CheckResult
checked = record { preview = checked_preview first_preview report; verification = report }

abbrev after_check : World
after_check = (handed_off good two_previews first_found start running report).1

check_runs : check_found good two_previews first_found start ≡ (ok checked, after_check)
unfolding check_found check_once tailscale_status port_available funnel_enabled_on_port verify save
    require same_device trim_suffix text_eq hostname_only hostname split_host_port cut cut_last
    normalize_preview equal_fold fold_rune fold_by
check_runs = refl

check_found_iff-IsHandedOff_example :
    Succeeds good two_previews first_found start checked after_check
check_found_iff-IsHandedOff_example =
    (check_found_iff-IsHandedOff good two_previews first_found start checked after_check).0
      check_runs

-- ===== src/Service/Check.antt =====
-- Service.Check: every condition of a safe handoff, in order, and the registry with the result.
use tailpreview.Base.{String, Bool, true, false, not, Option, none, some, List, [], ◌∷◌, ◌++◌}
use tailpreview.Base.Strings.{Text, codes, trim_suffix, equal_fold}
use tailpreview.Model.{Preview, Registry, VerificationReport}
use tailpreview.Errors.{Error, safe, plain, not_found, hostname_only}
use tailpreview.Host.{Service, Status}
use tailpreview.Host.Monad.{M, pure, fail, ◌>>=◌, ◌>>◌}
use tailpreview.Host.Calls.{
  check_once, tailscale_status, port_available, funnel_enabled_on_port, verify, save, with_registry,
}
use tailpreview.Service.Select.{Found, find_preview, normalize_preview}
use tailpreview.Service.Up.{require, is_ready}

pub record CheckResult : Type 0 where
  pub preview : Preview
  pub verification : VerificationReport

-- The SafeHandoffErrors of Check: no status, target or redirect.
abbrev pub handoff_error : String → String → String → Text → String → Error
handoff_error code phase message host remediation = safe (record {
  code = code;
  phase = phase;
  message = message;
  status_code = 0;
  hostname = host;
  target_path = [];
  redirect_origin = [];
  remediation = remediation;
})

abbrev pub health_failed : Text → Error
health_failed host =
    handoff_error "local_health_failed" "local_health" "local upstream health checks failed" host
      "Restore the already-running loopback service, then run tailpreview check again."

abbrev pub tailscale_unavailable : Text → Error
tailscale_unavailable host =
    handoff_error "tailscale_unavailable" "tailscale_status"
      "Tailscale is not running with a MagicDNS hostname" host
      "Restore Tailscale connectivity, then run tailpreview check again."

abbrev pub hostname_changed : Text → Error
hostname_changed host =
    handoff_error "tailnet_hostname_changed" "tailscale_status"
      "the registered preview hostname no longer matches this Tailscale device" host
      "Run tailpreview down for the stale preview, then create it again with tailpreview up."

abbrev pub listener_missing : Text → Error
listener_missing host =
    handoff_error "serve_listener_missing" "tailscale_status"
      "the registered Tailpreview HTTPS listener is missing from Tailscale Serve" host
      "Run tailpreview up again to restore only this preview port."

abbrev pub public_endpoint : Text → Error
public_endpoint host =
    handoff_error "public_endpoint_detected" "tailscale_status"
      "Tailscale Funnel is enabled on the registered Tailpreview port" host
      "Disable Funnel only on this port before restoring the preview with tailpreview up."

abbrev pub no_error : Option Text → Bool
no_error none = true
no_error (some _) = false

-- strings.EqualFold(strings.TrimSuffix(DNSName, "."), hostnameOnly(HandoffURL))
unfoldable pub same_device : Status → Text → Bool
unfolding trim_suffix equal_fold
same_device st host = equal_fold (trim_suffix st.dns_name (codes ".")) host

-- `registry.Previews[index] = preview`
abbrev pub put_back : Found → Preview → List Preview
put_back f p = f.before ++ p ∷ f.after

abbrev pub checked_preview : Preview → VerificationReport → Preview
checked_preview p report = record p {
  last_verified_at = some report.verified_at;
  status = "active";
  last_health_error = [];
}

unfoldable pub check_found : Service → Registry → Found → M CheckResult
check_found s reg f = do
  let p = normalize_preview f.preview
  let host = hostname_only s.net p.handoff_url
  health ← check_once s p.health
  require (no_error health) (health_failed (hostname_only s.net p.url))
  status ← tailscale_status s
  require (is_ready status) (tailscale_unavailable host)
  require (same_device status host) (hostname_changed host)
  available ← port_available s p.external_port
  require (not available) (listener_missing host)
  enabled ← funnel_enabled_on_port s p.external_port
  require (not enabled) (public_endpoint host)
  require s.has_verifier (plain "final preview verifier is not configured")
  report ← verify s p.handoff_url p.verify
  save s (record reg { previews = put_back f (checked_preview p report) })
  pure (record { preview = checked_preview p report; verification = report })

abbrev pub found_or_fail : {A : Type 0} → Text → Option Found → (Found → M A) → M A
found_or_fail selector none k = fail (not_found selector)
found_or_fail selector (some f) k = k f

unfoldable pub check : Service → Text → M CheckResult
check s selector =
    with_registry s
      (λ reg. found_or_fail selector (find_preview reg.previews selector) (check_found s reg))

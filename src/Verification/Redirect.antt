-- ===== src/Verification/Redirect.antt =====
-- The redirect policy of verifyOne, and how http.Client follows redirects under it.
use tailpreview.Base.{
  ℕ, zero, suc, String, Bool, not, ◌&&◌, ◌||◌, Option, none, some, [], ◌∷◌, leb, ◌==◌,
  if◌then◌else◌,
}
use tailpreview.Base.Strings.{Text, codes, text_eq}
use tailpreview.Url.{Url, Net, hostname}
use tailpreview.Errors.{SafeHandoffError}
use tailpreview.Verification.{
  Web, Trace, Location, absent, unusable, target, Answer, failed, replied, requested,
}
use tailpreview.Verification.Origin.{same_origin, is_loopback_hostname, sanitized_origin}

abbrev pub max_verification_redirects : ℕ
max_verification_redirects = 5

abbrev pub origin_advice : String
origin_advice =
    "Configure the application external origin, authentication, and WebAuthn settings to use the exact Tailpreview HTTPS origin. Permanent redirects may require a private browser window after correction."

-- A SafeHandoffError of the final verification about a path.
abbrev pub final_error : Url → Text → String → String → ℕ → Text → String → SafeHandoffError
final_error base path code message status redirect remediation = record {
  code = code;
  phase = "final_verification";
  message = message;
  status_code = status;
  hostname = hostname base;
  target_path = path;
  redirect_origin = redirect;
  remediation = remediation;
}

-- What a request ends in: a response with the URL it came from, the error of the policy, or another.
pub record Response : Type 0 where
  pub status : ℕ
  pub url : Url

pub data Fetched : Type 0 where
  answered : Response → Fetched
  refused : SafeHandoffError → Fetched
  broken : Fetched

module _ (net : Net) (web : Web) (base : Url) (path : Text) where
  -- CheckRedirect: `via` is the number of requests that were made before.
  unfoldable pub check_redirect : ℕ → Url → Option SafeHandoffError
  check_redirect via u =
      if leb max_verification_redirects via
      then some (
          final_error base path "redirect_limit_exceeded"
            "final preview exceeded the same-origin redirect limit" 0 []
            "Fix the application redirect loop, then run tailpreview check again.")
      else if u.user
      then some (
          final_error base path "credentialed_redirect"
            "final preview redirected to a URL containing credentials" 0 (sanitized_origin web u)
            "Remove credentials from the application redirect target, then run tailpreview check again.")
      else if same_origin base u
      then none
      else if is_loopback_hostname net (hostname u)
      then some (
          final_error base path "loopback_redirect" "final preview redirected to a loopback origin"
            0 (sanitized_origin web u) origin_advice)
      else if text_eq base.scheme (codes "https") && not (text_eq u.scheme (codes "https"))
      then some (
          final_error base path "https_downgrade_redirect"
            "final preview redirected from HTTPS to a non-HTTPS origin" 0 (sanitized_origin web u)
            "Configure the application external origin to use the Tailpreview HTTPS URL.")
      else if not (same_origin base u)
      then some (
          final_error base path "cross_origin_redirect"
            "final preview redirected outside its Tailpreview origin" 0 (sanitized_origin web u)
            origin_advice)
      else none

  -- The statuses after which http.Client reads Location for a GET request.
  unfoldable pub is_redirect : ℕ → Bool
  is_redirect n = n == 301 || n == 302 || n == 303 || n == 307 || n == 308

  abbrev pub on_policy :
      Option SafeHandoffError → Trace → Option Fetched × Trace → Option Fetched × Trace
  on_policy (some e) h rest = (some (refused e), h)
  on_policy none h rest = rest

  abbrev pub on_location :
      (Url → Option Fetched × Trace) → ℕ → Response → Trace → Location → Option Fetched × Trace
  on_location next via r h absent = (some (answered r), h)
  on_location next via r h unusable = (some broken, h)
  on_location next via r h (target v) = on_policy (check_redirect (suc via) v) h (next v)

  abbrev pub on_answer :
      (Url → Option Fetched × Trace) → ℕ → Url → Trace → Answer → Option Fetched × Trace
  on_answer next via u h failed = (some broken, h)
  on_answer next via u h (replied status location) =
      let r : Response = record { status = status; url = u } in
      if is_redirect status then on_location next via r h location else (some (answered r), h)

  -- http.Client.Do, with `via` requests made before. The first component is `none` without fuel.
  unfoldable pub follow : ℕ → ℕ → Url → Trace → Option Fetched × Trace
  unfolding is_redirect
  follow zero via u h = (none, h)
  follow (suc fuel) via u h =
      let h1 = requested u ∷ h in on_answer (λ v. follow fuel (suc via) v h1) via u h1 (web.get h u)

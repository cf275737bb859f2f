-- ===== src/Verification/Attempt.antt =====
-- HTTPVerifier.Verify and verifyOne.
use tailpreview.Base.{
  ℕ, zero, suc, ◌+◌, ◌/◌, Bool, not, ◌&&◌, ◌||◌, Option, none, some, [], ◌∷◌, ltb, leb, ◌==◌,
  if◌then◌else◌,
}
use tailpreview.Base.Strings.{Text, is_empty}
use tailpreview.Base.Outcome.{Outcome, ok, err}
use tailpreview.Model.{VerificationCheck, VerificationResult}
use tailpreview.Url.{Url, Net}
use tailpreview.Errors.{Error, SafeHandoffError, safe, plain, external}
use tailpreview.Verification.{Web, Trace, paused}
use tailpreview.Verification.Origin.{sanitized_origin}
use tailpreview.Verification.Redirect.{
  Response, Fetched, answered, refused, broken, final_error, follow, max_verification_redirects,
}

-- 250 milliseconds, and ten seconds, in nanoseconds.
abbrev pub pause : ℕ
pause = 250000000

abbrev pub default_timeout : ℕ
default_timeout = 10000000000

unfoldable pub timeout_of : ℕ → ℕ
timeout_of t = if t == 0 then default_timeout else t

-- URL.ResolveReference of a reference that has a path: with a scheme, a host or a user it stands for
-- itself.
unfoldable pub resolve_reference : Web → Url → Url → Url
resolve_reference web base ref =
    if is_empty ref.scheme && is_empty ref.host && not ref.user
    then record base {
      path = web.resolve_path base.path ref.path;
      raw_query = ref.raw_query;
      fragment = ref.fragment;
    }
    else record ref {
      scheme = if is_empty ref.scheme then base.scheme else ref.scheme;
      path = web.resolve_path [] ref.path;
    }

-- An attempt is over with a result, or another is to be made, with the last status.
pub data Verdict : Type 0 where
  done : Outcome Error VerificationResult → Verdict
  again : ℕ → Verdict

abbrev pub Ended : Type 0
Ended = Option (Outcome Error VerificationResult) × Trace

module _ (net : Net) (web : Web) (base : Url) (check : VerificationCheck) where
  unfoldable pub unexpected_status_error : ℕ → SafeHandoffError
  unexpected_status_error status =
      final_error base check.path "unexpected_http_status"
        "final preview returned an HTTP status outside the configured range" status []
        "Fix the public route or adjust its explicit 2xx/3xx verification range, then retry."

  abbrev pub forbidden : ℕ → SafeHandoffError
  forbidden status =
      final_error base check.path "external_forbidden"
        "final preview returned HTTP 403 through the Tailpreview origin" status []
        "Check the exact development-server hostname allowlist and the route or authentication authorization, restart the local service if its runtime configuration changed, then retry."

  abbrev pub invalid_redirect : ℕ → SafeHandoffError
  invalid_redirect status =
      final_error base check.path "invalid_redirect"
        "final preview returned a redirect without a usable same-origin destination" status []
        "Fix the application redirect target, then run tailpreview check again."

  abbrev pub unreachable : SafeHandoffError
  unreachable =
      final_error base check.path "external_unreachable"
        "final Tailpreview HTTPS endpoint was unreachable before the verification timeout" 0 []
        "Check the local service, Caddy, Tailscale Serve, and tailnet connectivity, then retry."

  unfoldable pub is_accepted : ℕ → Bool
  is_accepted n = leb check.min_code n && leb n check.max_code && (ltb n 300 || leb 400 n)

  unfoldable pub judge_response : Response → Verdict
  judge_response r =
      if is_accepted r.status
      then done (
          ok (record {
            path = check.path;
            status_code = r.status;
            final_origin = sanitized_origin web r.url;
          }))
      else if r.status == 403
      then done (err (safe (forbidden r.status)))
      else if leb 400 r.status && ltb r.status 500
      then done (err (safe (unexpected_status_error r.status)))
      else if leb 300 r.status && ltb r.status 400
      then done (err (safe (invalid_redirect r.status)))
      else again r.status

  abbrev pub or_cancelled : Option Text → ℕ → Verdict
  or_cancelled none last = again last
  or_cancelled (some e) last = done (err (external e))

  unfoldable pub judge : ℕ → Option Text → Fetched → Verdict
  judge last cancelled (answered r) = judge_response r
  judge last cancelled (refused e) = done (err (safe e))
  judge last cancelled broken = or_cancelled cancelled last

  unfoldable pub timed_out : ℕ → SafeHandoffError
  timed_out last = if last == 0 then unreachable else unexpected_status_error last

  abbrev pub on_stop : Option Text → Trace → Ended → Ended
  on_stop (some e) h rest = (some (err (external e)), h)
  on_stop none h rest = rest

  abbrev pub on_verdict : ℕ → (ℕ → Ended) → Trace → Verdict → Ended
  on_verdict deadline next h (done result) = (some result, h)
  on_verdict deadline next h (again last) =
      if ltb deadline (web.now h)
      then (some (err (safe (timed_out last))), h)
      else on_stop (web.stopped h) h (next last)

  abbrev pub on_fetched : ℕ → ℕ → (ℕ → Ended) → Trace → Option Fetched → Ended
  on_fetched deadline last next h none = (none, h)
  on_fetched deadline last next h (some f) =
      on_verdict deadline next h (judge last (web.cancelled h) f)

  -- The loop; the first component is `none` without fuel.
  unfoldable pub attempts : ℕ → ℕ → Url → ℕ → Trace → Ended
  attempts zero deadline u last h = (none, h)
  attempts (suc fuel) deadline u last h =
      let (r, h1) = follow net web base check.path max_verification_redirects 0 u h in
      on_fetched deadline last (λ last1. attempts fuel deadline u last1 (paused ∷ h1)) h1 r

  -- One attempt now, one for each pause until the deadline, and one after it.
  unfoldable pub enough_attempts : ℕ → ℕ
  enough_attempts timeout = suc (suc (timeout / pause))

  abbrev pub on_request : ℕ → Url → Trace → Option Text → Ended
  on_request timeout u h (some e) = (some (err (external e)), h)
  on_request timeout u h none = attempts (enough_attempts timeout) (web.now h + timeout) u 0 h

  abbrev pub on_path : ℕ → Trace → Option Url → Ended
  on_path timeout h none = (some (err (plain "nil pointer dereference")), h)
  on_path timeout h (some ref) =
      let u = resolve_reference web base ref in
      on_request (timeout_of timeout) u h (web.request_error u)

  -- A path that url.Parse refuses leaves a nil pointer, which ResolveReference reads.
  unfoldable pub verify_one : ℕ → Trace → Ended
  verify_one timeout h = on_path timeout h (net.parse check.path)

-- ===== src/Verification/Run.antt =====
-- HTTPVerifier.Verify: the URL and the checks are tested, then each check is made.
use tailpreview.Base.{
  ℕ, Bool, true, false, not, ◌&&◌, ◌||◌, Option, none, some, List, [], ◌∷◌, ◌++◌, if◌then◌else◌,
}
use tailpreview.Base.Strings.{Text, codes, text_eq, is_empty}
use tailpreview.Base.Lists.{any}
use tailpreview.Base.Outcome.{Outcome, ok, err}
use tailpreview.Model.{VerificationCheck, VerificationResult, VerificationReport}
use tailpreview.Url.{Url, Net, hostname}
use tailpreview.Errors.{Error, SafeHandoffError, safe}
use tailpreview.Config.{default_verify}
use tailpreview.Config.Upstream.{validate_verification_path}
use tailpreview.Config.Validate.{is_bad_range}
use tailpreview.Verification.{Web, Trace}
use tailpreview.Verification.Origin.{is_loopback_hostname}
use tailpreview.Verification.Redirect.{final_error}
use tailpreview.Verification.Attempt.{Ended, verify_one}
use tailpreview.Service.Select.{or_default}

abbrev pub invalid_handoff_url : SafeHandoffError
invalid_handoff_url = record {
  code = "invalid_handoff_url";
  phase = "final_verification";
  message = "final handoff URL must be an absolute non-loopback HTTPS origin";
  status_code = 0;
  hostname = [];
  target_path = [];
  redirect_origin = [];
  remediation = "";
}

abbrev pub invalid_check : Url → SafeHandoffError
invalid_check base =
    final_error base [] "invalid_verification_check"
      "stored final verification configuration is invalid" 0 []
      "Run tailpreview up with valid query-free public verification paths and 2xx/3xx ranges."

abbrev pub refuses : {A : Type 0} → Outcome Error A → Bool
refuses (ok _) = false
refuses (err _) = true

abbrev pub Verified : Type 0
Verified = Option (Outcome Error VerificationReport) × Trace

module _ (net : Net) (web : Web) where
  unfoldable pub is_handoff_origin : Url → Bool
  is_handoff_origin u =
      text_eq u.scheme (codes "https")
      && not (is_empty u.host)
      && not (is_loopback_hostname net (hostname u))
      && not u.user
      && (is_empty u.path || text_eq u.path (codes "/"))
      && is_empty u.raw_query
      && is_empty u.fragment

  unfoldable pub is_bad_check : VerificationCheck → Bool
  is_bad_check c =
      refuses (validate_verification_path net c.path) || is_bad_range c.min_code c.max_code

  abbrev pub on_result :
      List VerificationResult → (List VerificationResult → Verified) → Ended → Verified
  on_result acc next (none, h) = (none, h)
  on_result acc next (some (err e), h) = (some (err e), h)
  on_result acc next (some (ok result), h) = next (acc ++ result ∷ [])

  -- The loop over the checks, with the results of those before.
  unfoldable pub verify_all :
      Url → ℕ → List VerificationCheck → List VerificationResult → Trace → Verified
  verify_all base timeout [] acc h =
      (some (ok (record { verified_at = web.now h; checks = acc })), h)
  verify_all base timeout (c ∷ cs) acc h =
      let (r, h1) = verify_one net web base c timeout h in
      on_result acc (λ acc1. verify_all base timeout cs acc1 h1) (r, h1)

  unfoldable pub verify_checked : Url → ℕ → List VerificationCheck → Trace → Verified
  verify_checked base timeout checks h =
      if any is_bad_check checks
      then (some (err (safe (invalid_check base))), h)
      else verify_all base timeout checks [] h

  abbrev pub on_url : ℕ → List VerificationCheck → Trace → Option Url → Verified
  on_url timeout checks h none = (some (err (safe invalid_handoff_url)), h)
  on_url timeout checks h (some base) =
      if is_handoff_origin base
      then verify_checked base timeout (or_default checks default_verify) h
      else (some (err (safe invalid_handoff_url)), h)

  unfoldable pub verify_url : ℕ → Text → List VerificationCheck → Trace → Verified
  verify_url timeout raw checks h = on_url timeout checks h (net.parse raw)

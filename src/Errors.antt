-- ===== src/Errors.antt =====
-- internal/app/errors.go and the errors of the other packages. A text that is built from values is a
-- constructor with those values.
use tailpreview.Base.{ℕ, String, not, ◌&&◌, ◌==◌, ◌++◌, if◌then◌else◌, Option, none, some, List, []}
use tailpreview.Base.Strings.{Text, codes, is_empty, itoa}
use tailpreview.Url.{Net, hostname}

pub record SafeHandoffError : Type 0 where
  pub code : String
  pub phase : String
  pub message : String
  pub status_code : ℕ
  pub hostname : Text
  pub target_path : Text
  pub redirect_origin : Text
  pub remediation : String

pub data Error : Type 0 where
  safe : SafeHandoffError → Error
  -- errors.New
  plain : String → Error
  -- fmt.Errorf with %w
  wrapped : String → Error → Error
  -- an error that a collaborator returned
  external : Text → Error
  not_found : Text → Error
  owns_port : ℕ → Error
  outside_pool : ℕ → ℕ → ℕ → Error
  port_owned : ℕ → Error
  gateway_in_use : ℕ → ℕ → Error
  serve_configured : ℕ → Error
  -- an error of config.Validate that names the entry, counted from 1
  at_route at_health at_verification : ℕ → Error → Error
  -- the names that no --set and no environment variable gives
  missing_variables : List Text → Error
  unsupported_version unsupported_registry status_error : ℕ → Error
  -- an error that quotes a text
  quoting : String → Text → Error

-- errors.As with a *SafeHandoffError
unfoldable pub find_safe : Error → Option SafeHandoffError
find_safe (safe e) = some e
find_safe (wrapped _ e) = find_safe e
find_safe (at_route _ e) = find_safe e
find_safe (at_health _ e) = find_safe e
find_safe (at_verification _ e) = find_safe e
find_safe _ = none

-- hostnameOnly
unfoldable pub hostname_only : Net → Text → Text
hostname_only net raw = elim (net.parse raw) [ none ↦ [] | some u ↦ hostname u ]

-- SafeHandoffError.Error
unfoldable pub safe_handoff_text : SafeHandoffError → Text
unfolding itoa
safe_handoff_text e =
    if not (e.status_code == 0) && not (is_empty e.target_path)
    then codes e.message
      ++ (codes " (path "
          ++ (e.target_path ++ (codes ", HTTP " ++ (itoa e.status_code ++ codes ")"))))
    else if not (is_empty e.target_path)
    then codes e.message ++ (codes " (path " ++ (e.target_path ++ codes ")"))
    else codes e.message

pub record ErrorPayload : Type 0 where
  pub schema_version : ℕ
  pub error : Text
  pub code : Text
  pub phase : Text
  pub status_code : ℕ
  pub hostname : Text
  pub target_path : Text
  pub redirect_origin : Text
  pub remediation : Text

abbrev pub plain_payload : Text → ErrorPayload
plain_payload text = record {
  schema_version = 1;
  error = text;
  code = [];
  phase = [];
  status_code = 0;
  hostname = [];
  target_path = [];
  redirect_origin = [];
  remediation = [];
}

abbrev pub with_safe : Option SafeHandoffError → ErrorPayload → ErrorPayload
with_safe none p = p
with_safe (some e) p = record p {
  code = codes e.code;
  phase = codes e.phase;
  status_code = e.status_code;
  hostname = e.hostname;
  target_path = e.target_path;
  redirect_origin = e.redirect_origin;
  remediation = codes e.remediation;
}

-- ErrorPayloadFor, with the text of the error.
unfoldable pub error_payload : Text → Error → ErrorPayload
unfolding find_safe
error_payload text e = with_safe (find_safe e) (plain_payload text)

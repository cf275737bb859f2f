-- ===== src/Config/Upstream.antt =====
-- ValidateUpstream and ValidateVerificationPath of internal/config/config.go.
use tailpreview.Base.{Bool, false, not, ◌&&◌, ◌||◌, Option, none, some, if◌then◌else◌}
use tailpreview.Base.Strings.{
  Text, codes, text_eq, is_empty, has_prefix, contains_any, to_lower, trim_suffix,
}
use tailpreview.Base.Outcome.{Outcome, ok, err}
use tailpreview.Url.{Url, Net, hostname, is_abs}
use tailpreview.Errors.{Error, plain, quoting}

-- "localhost", or an IP address for which IsLoopback holds, up to case and one final dot.
abbrev pub normal_host : Text → Text
normal_host h = trim_suffix (to_lower h) (codes ".")

abbrev pub is_loopback_ip : Option Bool → Bool
is_loopback_ip none = false
is_loopback_ip (some b) = b

abbrev http : Text
http = codes "http"

abbrev https : Text
https = codes "https"

unfoldable pub check_host : Net → Text → Outcome Error (Unit {0})
check_host net host =
    if text_eq host (codes "localhost")
    then ok tt
    else if is_loopback_ip (net.parse_ip host)
    then ok tt
    else err (quoting "upstream host is not loopback" host)

unfoldable pub check_parsed : Net → Bool → Url → Outcome Error (Unit {0})
unfolding check_host
check_parsed net insecure u =
    if u.user
    then err (plain "credentials in upstream URLs are forbidden")
    else if not (text_eq u.scheme http) && not (text_eq u.scheme https)
    then err (quoting "unsupported upstream scheme" u.scheme)
    else if insecure && not (text_eq u.scheme https)
    then err (plain "insecure_skip_verify only applies to HTTPS upstreams")
    else check_host net (normal_host (hostname u))

unfoldable pub validate_upstream : Net → Text → Bool → Outcome Error (Unit {0})
unfolding check_parsed
validate_upstream net raw insecure = elim (net.parse raw) [
  | none ↦ err (quoting "invalid upstream URL" raw)
  | some u ↦
      if is_empty u.scheme || is_empty u.host
      then err (quoting "invalid upstream URL" raw)
      else check_parsed net insecure u
]

check_request_uri : Text → Option Url → Outcome Error (Unit {0})
check_request_uri raw none = err (quoting "invalid public path" raw)
check_request_uri raw (some u) =
    if is_abs u || not (is_empty u.host) then err (quoting "invalid public path" raw) else ok tt

unfoldable pub validate_verification_path : Net → Text → Outcome Error (Unit {0})
unfolding check_request_uri
validate_verification_path net raw =
    if is_empty raw || not (has_prefix raw (codes "/")) || has_prefix raw (codes "//")
    then err (plain "path must start with exactly one /")
    else if contains_any raw (codes "?#")
    then err (plain "query strings and fragments are forbidden in verification paths")
    else check_request_uri raw (net.parse_request_uri raw)

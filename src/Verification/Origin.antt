-- ===== src/Verification/Origin.antt =====
-- sameOrigin, effectivePort, sanitizedOrigin and isLoopbackHostname.
pub mod Meaning
use tailpreview.Base.{
  Bool, true, false, ◌&&◌, none, some, [], ◌∷◌, if◌then◌else◌, ◌≡◌, ◌↔◌, arith, map, ap,
}
use tailpreview.Base.Strings.{
  Text, codes, text_eq, text_eq_iff, equal_fold, equal_fold_iff, to_lower, trim_suffix,
}
use tailpreview.Base.Fold.{fold_rune}
use tailpreview.Url.{Url, Net, hostname, port}
use tailpreview.Verification.{Web}

abbrev pub or_standard : Text → Text → Text
or_standard scheme [] = if text_eq scheme (codes "https") then codes "443" else codes "80"
or_standard scheme (c ∷ p) = c ∷ p

unfoldable pub effective_port : Url → Text
effective_port u = or_standard u.scheme (port u)

abbrev pub bare_host : Url → Text
bare_host u = trim_suffix (hostname u) (codes ".")

unfoldable pub same_origin : Url → Url → Bool
same_origin left right =
    equal_fold left.scheme right.scheme
    && equal_fold (bare_host left) (bare_host right)
    && text_eq (effective_port left) (effective_port right)

unfoldable pub is_loopback_hostname : Net → Text → Bool
is_loopback_hostname net raw =
    let host = trim_suffix (to_lower raw) (codes ".") in
    if text_eq host (codes "localhost")
    then true
    else elim (net.parse_ip host) [ none ↦ false | some loopback ↦ loopback ]

abbrev pub origin_only : Url → Text → Url
origin_only u host = record {
  scheme = u.scheme;
  user = false;
  host = host;
  path = [];
  raw_query = [];
  fragment = [];
}

unfoldable pub sanitized_origin : Web → Url → Text
sanitized_origin web u = web.print (
    origin_only u
      (elim (web.split_host_port u.host) [ none ↦ u.host | some (h, p) ↦ web.join_host_port h p ]))

-- An origin: the folded scheme and host, and the port.
abbrev pub origin : Url → Text × Text × Text
origin u = (map fold_rune u.scheme, map fold_rune (bare_host u), effective_port u)

-- The test of two origins is an equality: two URLs have the same origin exactly when their folded
-- schemes, their folded hosts without a final dot and their effective ports are equal.
pub same_origin-origin : (u v : Url) → (same_origin u v ≡ true) ↔ (origin u ≡ origin v)
unfolding same_origin
same_origin-origin u v =
    let schemes = equal_fold_iff u.scheme v.scheme in
    let hosts = equal_fold_iff (bare_host u) (bare_host v) in
    let ports = text_eq_iff (effective_port u) (effective_port v) in
    (
      λ h.
          let a = schemes.0 (ground arith) in
          let b = hosts.0 (ground arith) in let c = ports.0 (ground arith) in cc,
      λ h.
          let a = schemes.1 (ap (λ o. o.0) h) in
          let b = hosts.1 (ap (λ o. o.1) h) in let c = ports.1 (ap (λ o. o.2) h) in ground arith,
    )

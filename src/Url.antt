-- ===== src/Url.antt =====
-- What the program uses of packages net/url and net. The two parsers are parameters (`Net`); the
-- accessors of a parsed URL follow net/url.
use tailpreview.Base.{
  Bool, true, false, ◌&&◌, not, Option, none, some, [], ◌∷◌, leb, ◌==◌, if◌then◌else◌, ◌≡◌, refl,
}
use tailpreview.Base.Strings.{Text, codes, cut_last, is_empty}

-- A parsed URL: `user` says whether it carries user information, `host` is host or host:port.
pub record Url : Type 0 where
  pub scheme : Text
  pub user : Bool
  pub host : Text
  pub path : Text
  pub raw_query : Text
  pub fragment : Text

-- url.Parse, url.ParseRequestURI and net.ParseIP, with `none` for a text that they refuse; of an IP
-- address only IsLoopback is asked.
pub record Net : Type 0 where
  pub parse : Text → Option Url
  pub parse_request_uri : Text → Option Url
  pub parse_ip : Text → Option Bool

all_digits : Text → Bool
all_digits [] = true
all_digits (c ∷ s) = leb b'0' c && leb c b'9' && all_digits s

-- splitHostPort of net/url: the last colon separates a port if only digits follow it.
unfoldable pub split_host_port : Text → Text × Text
unfolding cut_last all_digits
split_host_port s = elim (cut_last b':' s) [
  | none ↦ (s, [])
  | some (h, p) ↦ if all_digits p then (h, p) else (s, [])
]

drop_last : Text → Text
drop_last [] = []
drop_last (c ∷ []) = []
drop_last (c ∷ d ∷ s) = c ∷ drop_last (d ∷ s)

ends_with_bracket : Text → Bool
ends_with_bracket [] = false
ends_with_bracket (c ∷ []) = c == b']'
ends_with_bracket (c ∷ d ∷ s) = ends_with_bracket (d ∷ s)

strip_brackets : Text → Text
strip_brackets [] = []
strip_brackets (c ∷ s) = if c == b'[' && ends_with_bracket (c ∷ s) then drop_last s else c ∷ s

-- URL.Hostname, URL.Port
unfoldable pub hostname : Url → Text
unfolding split_host_port strip_brackets ends_with_bracket drop_last
hostname u = strip_brackets (split_host_port u.host).0

unfoldable pub port : Url → Text
unfolding split_host_port
port u = (split_host_port u.host).1

-- URL.IsAbs
unfoldable pub is_abs : Url → Bool
is_abs u = not (is_empty u.scheme)

abbrev sample : Url
sample = record {
  scheme = codes "http";
  user = false;
  host = codes "[::1]:80";
  path = [];
  raw_query = [];
  fragment = [];
}

hostname_runs : hostname sample ≡ codes "::1"
unfolding hostname
hostname_runs = refl

port_runs : port sample ≡ codes "80"
unfolding port
port_runs = refl

-- ===== src/Caddy/Config.antt =====
-- Generate, buildRoute, accessLogger and safeID of internal/caddy/config.go, up to MarshalIndent. A map
-- from strings is the members of an object, where a key stands once.
use tailpreview.Base.{
  ℕ, ◌*◌, Bool, true, false, not, ◌&&◌, ◌||◌, Option, none, some, List, [], ◌∷◌, ◌++◌, map, leb,
  ◌==◌, if◌then◌else◌, String, ◌≡◌, refl,
}
use tailpreview.Base.Strings.{Text, codes, text_eq, has_suffix, trim_suffix, is_empty, itoa}
use tailpreview.Base.Outcome.{Outcome, ok, err, ◌>>=◌}
use tailpreview.Model.{Route, Preview}
use tailpreview.Url.{Url, Net}
use tailpreview.Errors.{Error, quoting}
use tailpreview.Json.{
  Json, boolean, number, string, array, object, Items, end, item, Members, empty, member,
}
use tailpreview.Config.Load.{each}
use tailpreview.Caddy.{Paths}

abbrev pub is_safe : ℕ → Bool
is_safe r =
    (leb b'a' r && leb r b'z')
    || (leb b'A' r && leb r b'Z')
    || (leb b'0' r && leb r b'9')
    || r == b'_'

unfoldable pub safe_id : Text → Text
safe_id value = map (λ r. if is_safe r then r else b'_') value

-- `m[key] = value`
unfoldable pub set_member : Text → Json → Members → Members
set_member key v empty = member key v empty
set_member key v (member k w ms) =
    let rest : Members = set_member key v ms in
    if text_eq k key then member key v ms else member k w rest

-- A map literal, an array of strings, and numbers.
abbrev pub object_of : List (Text × Json) → Members
object_of [] = empty
object_of ((k, v) ∷ rest) = member k v (object_of rest)

abbrev pub dict : List (Text × Json) → Json
dict fields = object (object_of fields)

abbrev pub items_of : List Json → Items
items_of [] = end
items_of (v ∷ vs) = item v (items_of vs)

abbrev pub list_of : List Json → Json
list_of vs = array (items_of vs)

abbrev pub strings_of : List Text → Json
strings_of ts = list_of (map string ts)

abbrev pub literal : String → Json
literal s = string (codes s)

abbrev pub integer : ℕ → Json
integer n = number (record { truncated = some n; is_zero = n == 0 })

-- The paths that a route matches: `/a/*` matches `/a` as well.
unfoldable pub paths_of : Text → List Text
unfolding has_suffix trim_suffix
paths_of path =
    if has_suffix path (codes "/*") && not (is_empty (trim_suffix path (codes "/*")))
    then trim_suffix path (codes "/*") ∷ path ∷ []
    else path ∷ []

abbrev pub tls_config : Bool → Json
tls_config true = dict ((codes "insecure_skip_verify", boolean true) ∷ [])
tls_config false = dict []

abbrev pub with_transport : Bool → Bool → Members → Members
with_transport false insecure proxy = proxy
with_transport true insecure proxy =
    set_member (codes "transport")
      (dict ((codes "protocol", literal "http") ∷ (codes "tls", tls_config insecure) ∷ [])) proxy

abbrev pub with_rewrite : Bool → Text → Members → Members
with_rewrite false path proxy = proxy
with_rewrite true path proxy =
    set_member (codes "rewrite")
      (dict ((codes "strip_path_prefix", string (trim_suffix path (codes "/*"))) ∷ [])) proxy

abbrev pub plain_proxy : Text → Members
plain_proxy host = object_of (
    (codes "handler", literal "reverse_proxy")
    ∷ (codes "upstreams", list_of (dict ((codes "dial", string host) ∷ []) ∷ []))
    ∷ (codes "stream_close_delay", literal "5m")
    ∷ (codes "stream_timeout", literal "12h")
    ∷ [])

-- The route's object, where its upstream was parsed.
unfoldable pub route_json : Route → Url → Json
unfolding paths_of set_member text_eq
route_json route u =
    let proxy : Members = with_rewrite route.strip_prefix route.path (
      with_transport (text_eq u.scheme (codes "https")) route.insecure_skip_verify
        (plain_proxy u.host)) in
    dict (
      (codes "match", list_of (dict ((codes "path", strings_of (paths_of route.path)) ∷ []) ∷ []))
      ∷ (codes "handle", list_of (object proxy ∷ []))
      ∷ (codes "terminal", boolean true)
      ∷ [])

abbrev pub on_parsed : Route → Option Url → Outcome Error Json
on_parsed route none = err (quoting "url.Parse" route.upstream)
on_parsed route (some u) = ok (route_json route u)

unfoldable pub build_route : Net → Route → Outcome Error Json
build_route net route = on_parsed route (net.parse route.upstream)

abbrev pub deleted : Json
deleted = dict ((codes "filter", literal "delete") ∷ [])

unfoldable pub access_logger : Text → Text → Json
access_logger filename name = dict (
    (codes "include", strings_of ((codes "http.log.access." ++ name) ∷ []))
    ∷ (
      codes "writer",
      dict (
          (codes "output", literal "file")
          ∷ (codes "filename", string filename)
          ∷ (codes "mode", literal "0600")
          ∷ (codes "roll", boolean true)
          ∷ (codes "roll_size_mb", integer 10)
          ∷ (codes "roll_interval", integer (24 * 60 * 60 * 1000000000))
          ∷ (codes "roll_keep", integer 3)
          ∷ (codes "roll_keep_days", integer 1)
          ∷ []),
    )
    ∷ (
      codes "encoder",
      dict (
          (codes "format", literal "filter")
          ∷ (codes "wrap", dict ((codes "format", literal "json") ∷ []))
          ∷ (
            codes "fields",
            dict (
                (codes "request>headers", deleted)
                ∷ (codes "request>remote_ip", deleted)
                ∷ (codes "request>client_ip", deleted)
                ∷ (codes "request>remote_port", deleted)
                ∷ (codes "resp_headers", deleted)
                ∷ (
                  codes "request>uri",
                  dict (
                      (codes "filter", literal "regexp") ∷ (codes "regexp", literal "\\?.*$") ∷ []),
                )
                ∷ []),
          )
          ∷ []),
    )
    ∷ [])

abbrev pub server_name : Preview → Text
server_name p = codes "preview_" ++ safe_id p.id

abbrev pub log_name : Preview → Text
log_name p = codes "http.log.access." ++ server_name p

-- A preview's server with its built routes.
unfoldable pub server_json : Preview → List Json → Json
server_json p routes = dict (
    (codes "listen", strings_of ((codes "127.0.0.1:" ++ itoa p.gateway_port) ∷ []))
    ∷ (codes "routes", list_of routes)
    ∷ (codes "automatic_https", dict ((codes "disable", boolean true) ∷ []))
    ∷ (codes "metrics", dict [])
    ∷ (codes "logs", dict ((codes "default_logger_name", string (server_name p)) ∷ []))
    ∷ [])

-- `servers`, `logs` and `accessNames`.
pub record Parts : Type 0 where
  pub servers : Members
  pub logs : Members
  pub access_names : List Text

abbrev pub no_parts : Parts
no_parts = record { servers = empty; logs = empty; access_names = [] }

module _ (paths : Paths) where
  unfoldable pub log_file : Preview → Text
  log_file p = paths.logs_dir ++ b'/' ∷ (p.id ++ codes ".jsonl")

  unfoldable pub add_preview : Preview → List Json → Parts → Parts
  unfolding set_member server_json access_logger log_file
  add_preview p routes parts = record {
    servers = set_member (server_name p) (server_json p routes) parts.servers;
    logs = set_member (server_name p) (access_logger (log_file p) (server_name p)) parts.logs;
    access_names = parts.access_names ++ log_name p ∷ [];
  }

  -- The loop of Generate.
  unfoldable pub add_previews : Net → List Preview → Parts → Outcome Error Parts
  unfolding add_preview build_route
  add_previews net [] parts = ok parts
  add_previews net (p ∷ ps) parts =
      each (build_route net) p.routes >>= λ routes. add_previews net ps (add_preview p routes parts)

  unfoldable pub config_json : Parts → Json
  unfolding set_member
  config_json parts = dict (
      (codes "admin", dict ((codes "listen", string (codes "unix//" ++ paths.caddy_socket)) ∷ []))
      ∷ (
        codes "logging",
        dict (
            (
              codes "logs",
              object (
                  set_member (codes "default")
                    (dict (
                      (codes "level", literal "ERROR")
                      ∷ (codes "exclude", strings_of parts.access_names)
                      ∷ []))
                    parts.logs),
            )
            ∷ []),
      )
      ∷ (
        codes "apps",
        dict ((codes "http", dict ((codes "servers", object parts.servers) ∷ [])) ∷ []),
      )
      ∷ [])

  unfoldable pub generate : Net → List Preview → Outcome Error Json
  unfolding add_previews config_json
  generate net previews = add_previews net previews no_parts >>= λ parts. ok (config_json parts)

safe_runs : safe_id (codes "a-B/9") ≡ codes "a_B_9"
unfolding safe_id
safe_runs = refl

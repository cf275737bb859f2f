-- ===== src/Caddy/Dialed.antt =====
-- What the objects of buildRoute and Generate of internal/caddy/config.go say to Caddy, read member by
-- member.
use tailpreview.Base.{
  ◌≡◌, refl, Bool, true, false, Option, none, some, List, [], ◌∷◌, ◌++◌, if◌then◌else◌,
}
use tailpreview.Base.Strings.{Text, codes, text_eq, trim_suffix, itoa}
use tailpreview.Model.{Route, Preview}
use tailpreview.Url.{Url, Net, hostname}
use tailpreview.Json.{
  Json, null, boolean, number, string, array, object, end, item, Members, empty, member,
}
use tailpreview.Config.Upstream.{normal_host}
use tailpreview.Config.Sound.{IsLoopback}
use tailpreview.Caddy.Config.{
  dict, list_of, strings_of, literal, with_transport, with_rewrite, plain_proxy, set_member,
  paths_of, route_json, server_json,
}

-- The value of a key.
abbrev pub get_member : Text → Members → Option Json
get_member key empty = none
get_member key (member k v ms) = if text_eq k key then some v else get_member key ms

-- A member of an object, and the one item of an array.
abbrev pub field : Text → Json → Option Json
field key (object ms) = get_member key ms
field key null = none
field key (boolean b) = none
field key (number n) = none
field key (string s) = none
field key (array vs) = none

abbrev pub only_item : Json → Option Json
only_item (array (item v end)) = some v
only_item (array (item v (item u vs))) = none
only_item (array end) = none
only_item (object ms) = none
only_item null = none
only_item (boolean b) = none
only_item (number n) = none
only_item (string s) = none

abbrev pub then_field : Text → Option Json → Option Json
then_field key none = none
then_field key (some j) = field key j

abbrev pub then_only : Option Json → Option Json
then_only none = none
then_only (some j) = only_item j

-- The one handler of a route's object.
abbrev pub handler_of : Json → Option Json
handler_of j = then_only (field (codes "handle") j)

abbrev pub handler_field : Text → Json → Option Json
handler_field key j = then_field key (handler_of j)

-- The host that the handler's one upstream dials.
abbrev pub dialed : Json → Option Json
dialed j = then_field (codes "dial") (then_only (handler_field (codes "upstreams") j))

-- What a TLS transport says of the certificate: `none` without TLS.
abbrev pub tls_of : Json → Option Json
tls_of j = then_field (codes "tls") (handler_field (codes "transport") j)

-- TLS exactly for https, unverified exactly where the route says so.
abbrev pub tls_wanted : Bool → Bool → Option Json
tls_wanted false insecure = none
tls_wanted true false = some (dict [])
tls_wanted true true = some (dict ((codes "insecure_skip_verify", boolean true) ∷ []))

abbrev pub prefix_wanted : Bool → Text → Option Json
prefix_wanted false path = none
prefix_wanted true path = some (string (trim_suffix path (codes "/*")))

-- The object of a route proxies its paths to the host of its upstream, a host of this machine, by TLS
-- exactly for https, and strips the prefix exactly where the route says so.
pub record IsDialed (net : Net) (r : Route) (j : Json) : Type 0 where
  pub url : Url
  pub parsed : net.parse r.upstream ≡ some url
  pub loopback : IsLoopback net (normal_host (hostname url))
  pub matches :
      then_field (codes "path") (then_only (field (codes "match") j))
      ≡ some (strings_of (paths_of r.path))
  pub proxies : handler_field (codes "handler") j ≡ some (literal "reverse_proxy")
  pub dials : dialed j ≡ some (string url.host)
  pub secures : tls_of j ≡ tls_wanted (text_eq url.scheme (codes "https")) r.insecure_skip_verify
  pub strips :
      then_field (codes "strip_path_prefix") (handler_field (codes "rewrite") j)
      ≡ prefix_wanted r.strip_prefix r.path

-- The handler, by the three choices of buildRoute.
abbrev handler : Bool → Bool → Bool → Text → Text → Members
handler https insecure strip path host =
    with_rewrite strip path (with_transport https insecure (plain_proxy host))

abbrev in_route : Members → Json
in_route ms = dict ((codes "handle", list_of (object ms ∷ [])) ∷ [])

handler_lem :
    (https insecure strip : Bool) (path host : Text)
    → (handler_field (codes "handler") (in_route (handler https insecure strip path host))
        ≡ some (literal "reverse_proxy"))
      × (dialed (in_route (handler https insecure strip path host)) ≡ some (string host))
      × (tls_of (in_route (handler https insecure strip path host)) ≡ tls_wanted https insecure)
      × (then_field
            (codes "strip_path_prefix")
            (handler_field (codes "rewrite") (in_route (handler https insecure strip path host)))
          ≡ prefix_wanted strip path)
unfolding set_member text_eq
handler_lem false insecure false path host = (refl, refl, refl, refl)
handler_lem false insecure true path host = (refl, refl, refl, refl)
handler_lem true false false path host = (refl, refl, refl, refl)
handler_lem true false true path host = (refl, refl, refl, refl)
handler_lem true true false path host = (refl, refl, refl, refl)
handler_lem true true true path host = (refl, refl, refl, refl)

pub route_json-IsDialed :
    (net : Net) (r : Route) (u : Url)
    → net.parse r.upstream ≡ some u
    → IsLoopback net (normal_host (hostname u))
    → IsDialed net r (route_json r u)
unfolding route_json text_eq
route_json-IsDialed net r u e l =
    let (a, b, c, d) =
      handler_lem (text_eq u.scheme (codes "https")) r.insecure_skip_verify r.strip_prefix r.path
        u.host in
    record {
      url = u;
      parsed = e;
      loopback = l;
      matches = refl;
      proxies = a;
      dials = b;
      secures = c;
      strips = d;
    }

-- A server that listens on the gateway port of the preview at this machine and has these routes.
pub record IsListening (p : Preview) (js : List Json) (server : Json) : Type 0 where
  pub listens :
      field (codes "listen") server
      ≡ some (strings_of ((codes "127.0.0.1:" ++ itoa p.gateway_port) ∷ []))
  pub routes : field (codes "routes") server ≡ some (list_of js)

pub server_json-IsListening : (p : Preview) (js : List Json) → IsListening p js (server_json p js)
unfolding server_json text_eq
server_json-IsListening p js = record { listens = refl; routes = refl }

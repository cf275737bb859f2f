-- ===== src/Tests/Fixtures.antt =====
-- A service whose collaborators answer as told, two registered previews, and a third project.
use tailpreview.Base.{
  ℕ, ◌*◌, Bool, true, false, Option, none, some, List, [], ◌∷◌, if◌then◌else◌, ◌==◌,
}
use tailpreview.Base.Strings.{Text, codes, text_eq, cut}
use tailpreview.Base.Outcome.{ok}
use tailpreview.Model.{Route, HealthCheck, Preview, Registry}
use tailpreview.Url.{Url, Net}
use tailpreview.Host.{Host, Service, World}
use tailpreview.Config.{Resolved, default_verify, hour}
use tailpreview.Service.Up.{UpRequest}

-- Parses "scheme://host" only.
abbrev pub toy_parse : Text → Option Url
toy_parse raw = elim (cut b':' raw) [
  | none ↦ none
  | some (s, r) ↦ some (record {
    scheme = s;
    user = false;
    host = after_slashes r;
    path = [];
    raw_query = [];
    fragment = [];
  })
]
  where
    after_slashes : Text → Text
    after_slashes [] = []
    after_slashes (a ∷ []) = a ∷ []
    after_slashes (a ∷ b ∷ r) = r

abbrev pub toy_path : Text → Option Url
toy_path raw =
    some
      (record { scheme = []; user = false; host = []; path = raw; raw_query = []; fragment = [] })

abbrev pub toy_net : Net
toy_net = record {
  parse = toy_parse;
  parse_request_uri = toy_path;
  parse_ip = λ h. if text_eq h (codes "127.0.0.1") then some true else none;
}

-- A host on which every call succeeds; `taken` are the ports that Tailscale Serve has.
abbrev pub good_host : List ℕ → Host
good_host taken = record {
  lock = λ _. none;
  load = λ _. none;
  save = λ _ _. none;
  now = λ _. 1000 * hour;
  log_time = λ _ _. none;
  wait = λ _ _. none;
  check_once = λ _ _. none;
  status = λ _. ok (record {
    backend_state = codes "Running";
    dns_name = codes "dev.ts.net";
    online = true;
    key_expiry = [];
    magic_dns_suffix = codes "ts.net";
    magic_dns_enabled = true;
  });
  port_available = λ _ p. ok (free p taken);
  funnel_on_port = λ _ _. ok false;
  expose = λ _ _ _. none;
  remove = λ _ _. none;
  apply = λ _ _. none;
  active_requests = λ _. ok [];
  verify = λ _ _ _. ok (record { verified_at = 7; checks = [] });
  port_free = λ _ _. true;
  preview_id = λ root. root;
}
  where
    free : ℕ → List ℕ → Bool
    free p [] = true
    free p (q ∷ qs) = if q == p then false else free p qs

abbrev pub service_on : Host → Service
service_on h = record {
  host = h;
  net = toy_net;
  has_verifier = true;
  port_start = 0;
  port_end = 0;
  gateway_start = 0;
}

abbrev pub good : Service
good = service_on (good_host (8443 ∷ 8444 ∷ []))

abbrev pub web_route : Route
web_route = record {
  path = codes "/*";
  upstream = codes "http://127.0.0.1";
  strip_prefix = false;
  insecure_skip_verify = false;
}

abbrev pub web_check : HealthCheck
web_check = record {
  url = codes "http://127.0.0.1";
  required = true;
  min_code = 200;
  max_code = 399;
  insecure_skip_verify = false;
}

abbrev pub preview_on : Text → ℕ → ℕ → ℕ → Preview
preview_on id port gateway used = record {
  id = id;
  name = id;
  project_root = id;
  config_path = [];
  external_port = port;
  gateway_port = gateway;
  url = codes "https://dev.ts.net";
  handoff_url = codes "https://dev.ts.net";
  routes = web_route ∷ [];
  health = web_check ∷ [];
  verify = default_verify;
  created_at = 990 * hour;
  updated_at = 990 * hour;
  last_used_at = used;
  idle_ttl = 24 * hour;
  max_age = 168 * hour;
  pinned = false;
  status = "active";
  unhealthy_since = none;
  cookie_warning = false;
  last_health_error = [];
  last_verified_at = none;
}

abbrev pub first_preview : Preview
first_preview = preview_on (codes "/a/one") 8443 18080 (999 * hour)

-- Unused for too long.
abbrev pub stale_preview : Preview
stale_preview = preview_on (codes "/a/two") 8444 18081 (900 * hour)

abbrev pub two_previews : Registry
two_previews = record {
  version = 1;
  previews = first_preview ∷ stale_preview ∷ [];
  reservations = [];
}

abbrev pub start : World
start = record { disk = two_previews; history = [] }

abbrev pub third_config : Resolved
third_config = record {
  path = [];
  project_root = codes "/a/three";
  name = [];
  routes = web_route ∷ [];
  health = web_check ∷ [];
  verify = default_verify;
  idle_ttl = 24 * hour;
  max_age = 168 * hour;
}

abbrev pub third : UpRequest
third = record { config = third_config; name = []; port = 0; skip_health = false }

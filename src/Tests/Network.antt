-- ===== src/Tests/Network.antt =====
-- A network whose start page redirects to its login page, and a clock that counts the actions.
use tailpreview.Base.{◌*◌, false, none, some, [], arith, inl, inr, if◌then◌else◌, Bool-cases}
use tailpreview.Base.Lists.{length}
use tailpreview.Base.Strings.{Text, codes, text_eq, has_prefix}
use tailpreview.Config.Upstream.{validate_verification_path}
use tailpreview.Url.{Url, Net}
use tailpreview.Model.{VerificationCheck}
use tailpreview.Verification.{Web, replied, absent, target}
use tailpreview.Verification.Attempt.{pause}
use tailpreview.Verification.Results.{ParsesPaths}
use tailpreview.Verification.Deadline.{Ticks}

abbrev pub page : Text → Url
page path = record {
  scheme = codes "https";
  user = false;
  host = codes "dev.ts.net:8443";
  path = path;
  raw_query = [];
  fragment = [];
}

abbrev pub path_only : Text → Url
path_only path = record {
  scheme = [];
  user = false;
  host = [];
  path = path;
  raw_query = [];
  fragment = [];
}

abbrev pub path_net : Net
path_net = record {
  parse = λ raw. if has_prefix raw (codes "/") then some (path_only raw) else some (page []);
  parse_request_uri = λ raw. some (path_only raw);
  parse_ip = λ _. none;
}

abbrev pub login_web : Web
login_web = record {
  get = λ _ u.
      if text_eq u.path (codes "/")
      then replied 302 (target (page (codes "/login")))
      else replied 200 absent;
  now = λ h. length h * pause;
  cancelled = λ _. none;
  stopped = λ _. none;
  request_error = λ _. none;
  split_host_port = λ _. none;
  join_host_port = λ h _. h;
  print = λ u. u.host;
  resolve_path = λ _ p. p;
}

abbrev pub start_check : VerificationCheck
start_check = record { path = codes "/"; min_code = 200; max_code = 299 }

pub path_net-ParsesPaths : ParsesPaths path_net
unfolding validate_verification_path
path_net-ParsesPaths path u valid parsed = elim (Bool-cases (has_prefix path (codes "/"))) [
  | inl e ↦ (ground arith, ground arith, ground arith)
  | inr e ↦ absurd (ground arith)
]

pub login_web-Ticks : Ticks login_web
login_web-Ticks = record { forward = λ a h. omega arith; pauses = λ h. omega arith }

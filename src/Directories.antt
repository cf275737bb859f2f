-- ===== src/Directories.antt =====
-- internal/paths/paths.go: the directories and files of the program. The environment and the calls on
-- files are a parameter.
use tailpreview.Base.{Bool, true, false, Option, none, some, List, [], ◌∷◌, ◌++◌, ◌≡◌, refl}
use tailpreview.Base.Strings.{Text, codes}
use tailpreview.Base.Outcome.{Outcome, ok, err, ◌>>=◌, ◌>>◌}
use tailpreview.Errors.{Error, external, wrapped}
use tailpreview.Config.Decode.{decoded}

-- Paths
pub record Directories : Type 0 where
  pub config_dir : Text
  pub state_dir : Text
  pub runtime_dir : Text
  pub logs_dir : Text
  pub registry : Text
  pub lock : Text
  pub caddy_json : Text
  pub caddy_socket : Text
  pub caddy_pid : Text

-- os.Getenv of the two variables, os.UserConfigDir, os.UserHomeDir, filepath.Abs, whether GOOS is
-- darwin, and os.MkdirAll and os.Chmod of a directory.
pub record Environment : Type 0 where
  pub tailpreview_home : Text
  pub xdg_state_home : Text
  pub user_config_dir : Outcome Text Text
  pub user_home_dir : Outcome Text Text
  pub absolute : Text → Outcome Text Text
  pub is_darwin : Bool
  pub make_directory : Text → Option Text
  pub change_mode : Text → Option Text

-- filepath.Join of a clean path and an element.
abbrev pub join : Text → Text → Text
join dir element = dir ++ b'/' ∷ element

unfoldable pub from_roots : Text → Text → Directories
from_roots config_dir state_dir =
    let runtime_dir : Text = join state_dir (codes "runtime") in
    record {
      config_dir = config_dir;
      state_dir = state_dir;
      runtime_dir = runtime_dir;
      logs_dir = join state_dir (codes "logs");
      registry = join state_dir (codes "registry.json");
      lock = join state_dir (codes "registry.lock");
      caddy_json = join runtime_dir (codes "caddy.json");
      caddy_socket = join runtime_dir (codes "caddy-admin.sock");
      caddy_pid = join runtime_dir (codes "caddy.pid");
    }

abbrev pub home_element : Bool → Text
home_element true = codes "Library/Application Support/tailpreview"
home_element false = codes ".local/state/tailpreview"

abbrev pub state_dir_of : Environment → Text → Outcome Error Text
state_dir_of env [] =
    decoded env.user_home_dir >>= λ home. ok (join home (home_element env.is_darwin))
state_dir_of env (c ∷ configured) = ok (join (c ∷ configured) (codes "tailpreview"))

abbrev pub config_root : Outcome Text Text → Outcome Error Text
config_root (ok root) = ok root
config_root (err e) = err (wrapped "resolve config directory" (external e))

abbrev pub resolve_from : Environment → Text → Outcome Error Directories
resolve_from env (c ∷ root) = do
  home ← decoded (env.absolute (c ∷ root))
  ok (from_roots (join home (codes "config")) (join home (codes "state")))
resolve_from env [] = do
  root ← config_root env.user_config_dir
  state_dir ← state_dir_of env env.xdg_state_home
  ok (from_roots (join root (codes "tailpreview")) state_dir)

-- Resolve
unfoldable pub resolve : Environment → Outcome Error Directories
unfolding from_roots
resolve env = resolve_from env env.tailpreview_home

abbrev pub nil_or_error : Option Text → Outcome Error (Unit {0})
nil_or_error none = ok tt
nil_or_error (some e) = err (external e)

-- The loop of Ensure.
unfoldable pub ensure_each : Environment → List Text → Outcome Error (Unit {0})
ensure_each env [] = ok tt
ensure_each env (dir ∷ dirs) = do
  nil_or_error (env.make_directory dir)
  nil_or_error (env.change_mode dir)
  ensure_each env dirs

-- Ensure
unfoldable pub ensure : Environment → Directories → Outcome Error (Unit {0})
unfolding ensure_each
ensure env d = ensure_each env (d.config_dir ∷ d.state_dir ∷ d.runtime_dir ∷ d.logs_dir ∷ [])

sockets : (from_roots (codes "/c") (codes "/s")).caddy_socket ≡ codes "/s/runtime/caddy-admin.sock"
unfolding from_roots
sockets = refl

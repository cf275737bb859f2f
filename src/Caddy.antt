-- ===== src/Caddy.antt =====
-- internal/caddy: the configuration that Caddy is given (config.go), and the manager that has Caddy
-- load it (manager.go).
pub mod Config
pub mod Dialed
pub mod Served
pub mod Manager
pub mod Start
pub mod Applied
pub mod Stale
pub mod Requests
use tailpreview.Base.Strings.{Text}

-- What internal/paths gives the package.
pub record Paths : Type 0 where
  pub logs_dir : Text
  pub caddy_json : Text
  pub caddy_socket : Text

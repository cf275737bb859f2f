-- ===== src/Config.antt =====
-- internal/config/config.go: the resolved configuration, its validation, and the parsers of
-- command-line values.
pub mod Upstream
pub mod Validate
pub mod Sound
pub mod Values
pub mod Substitute
pub mod Decode
pub mod Load
pub mod Discover
use tailpreview.Base.{ℕ, ◌*◌, List, [], ◌∷◌}
use tailpreview.Base.Strings.{Text, codes}
use tailpreview.Model.{Route, HealthCheck, VerificationCheck}

pub record Resolved : Type 0 where
  pub path : Text
  pub project_root : Text
  pub name : Text
  pub routes : List Route
  pub health : List HealthCheck
  pub verify : List VerificationCheck
  pub idle_ttl : ℕ
  pub max_age : ℕ

abbrev pub hour : ℕ
hour = 3600 * 1000000000

abbrev pub default_verify : List VerificationCheck
default_verify = record { path = codes "/"; min_code = 200; max_code = 399 } ∷ []

unfoldable pub defaults : Resolved
defaults = record {
  path = [];
  project_root = [];
  name = [];
  routes = [];
  health = [];
  verify = default_verify;
  idle_ttl = 24 * hour;
  max_age = 7 * 24 * hour;
}

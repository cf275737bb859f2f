-- ===== src/Model.antt =====
-- internal/model/model.go: the records of the registry. Times and durations are nanoseconds as
-- naturals, ports and status codes are naturals, and texts are lists of code points.
use tailpreview.Base.{ℕ, String, Bool, Option, List, []}
use tailpreview.Base.Strings.{Text}

pub record Route : Type 0 where
  pub path : Text
  pub upstream : Text
  pub strip_prefix : Bool
  pub insecure_skip_verify : Bool

pub record HealthCheck : Type 0 where
  pub url : Text
  pub required : Bool
  pub min_code : ℕ
  pub max_code : ℕ
  pub insecure_skip_verify : Bool

pub record VerificationCheck : Type 0 where
  pub path : Text
  pub min_code : ℕ
  pub max_code : ℕ

pub record VerificationResult : Type 0 where
  pub path : Text
  pub status_code : ℕ
  pub final_origin : Text

pub record VerificationReport : Type 0 where
  pub verified_at : ℕ
  pub checks : List VerificationResult

pub record Preview : Type 0 where
  pub id : Text
  pub name : Text
  pub project_root : Text
  pub config_path : Text
  pub external_port : ℕ
  pub gateway_port : ℕ
  pub url : Text
  pub handoff_url : Text
  pub routes : List Route
  pub health : List HealthCheck
  pub verify : List VerificationCheck
  pub created_at : ℕ
  pub updated_at : ℕ
  pub last_used_at : ℕ
  pub idle_ttl : ℕ
  pub max_age : ℕ
  pub pinned : Bool
  pub status : String
  pub unhealthy_since : Option ℕ
  pub cookie_warning : Bool
  pub last_health_error : Text
  pub last_verified_at : Option ℕ

pub record PortReservation : Type 0 where
  pub port : ℕ
  pub last_seen : ℕ

-- The map of reservations is an association list with one entry for a key.
pub record Registry : Type 0 where
  pub version : ℕ
  pub previews : List Preview
  pub reservations : List (Text × PortReservation)

abbrev pub registry_version : ℕ
registry_version = 1

unfoldable pub new_registry : Registry
new_registry = record { version = registry_version; previews = []; reservations = [] }

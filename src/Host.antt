-- ===== src/Host.antt =====
-- The collaborators of app.Service (internal/app/service.go: Store, Caddy, Tailscale, Health,
-- Verifier, Now, PortFree) as answers that may depend on every call made before, and the state and
-- exception monad in which the service's methods run.
pub mod Monad
pub mod Calls
pub mod Keeps
pub mod Invariant
pub mod Ends
pub mod Session
use tailpreview.Base.{ℕ, Bool, Option, List}
use tailpreview.Base.Strings.{Text}
use tailpreview.Base.Outcome.{Outcome}
use tailpreview.Model.{HealthCheck, VerificationCheck, VerificationReport, Preview, Registry}
use tailpreview.Url.{Net}
use tailpreview.Errors.{Error}

-- tailscale.Status
pub record Status : Type 0 where
  pub backend_state : Text
  pub dns_name : Text
  pub online : Bool
  pub key_expiry : Text
  pub magic_dns_suffix : Text
  pub magic_dns_enabled : Bool

-- A call and how it ended: `true` where it returned no error.
pub data Event : Type 0 where
  locked loaded active_read : Bool → Event
  unlocked : Event
  waited checked : List HealthCheck → Bool → Event
  status_read : Outcome Text Status → Event
  probed funnel_read : ℕ → Outcome Text Bool → Event
  exposed : ℕ → ℕ → Bool → Event
  removed : ℕ → Bool → Event
  applied : List Preview → Bool → Event
  verified : Text → List VerificationCheck → Bool → Event
  saved : Registry → Bool → Event
  logs_removed : Text → Event

-- Newest first.
abbrev pub History : Type 0
History = List Event

-- `none` is the answer nil of a call that returns only an error.
pub record Host : Type 0 where
  pub lock : History → Option Text
  pub load : History → Option Text
  pub save : History → Registry → Option Text
  pub now : History → ℕ
  pub log_time : History → Text → Option ℕ
  pub wait : History → List HealthCheck → Option Text
  pub check_once : History → List HealthCheck → Option Text
  pub status : History → Outcome Text Status
  pub port_available : History → ℕ → Outcome Text Bool
  pub funnel_on_port : History → ℕ → Outcome Text Bool
  pub expose : History → ℕ → ℕ → Option Text
  pub remove : History → ℕ → Option Text
  pub apply : History → List Preview → Option Text
  pub active_requests : History → Outcome Text (List (Text × ℕ))
  pub verify : History → Text → List VerificationCheck → Outcome Error VerificationReport
  pub port_free : History → ℕ → Bool
  -- previewID of service.go: SHA-256 over filepath.Abs, in hexadecimal.
  pub preview_id : Text → Text

-- app.Service: a zero port stands for the default.
pub record Service : Type 0 where
  pub host : Host
  pub net : Net
  pub has_verifier : Bool
  pub port_start : ℕ
  pub port_end : ℕ
  pub gateway_start : ℕ

-- The registry file's content, and the calls so far.
pub record World : Type 0 where
  pub disk : Registry
  pub history : History

-- ===== src/Service/Valid.antt =====
-- The invariant of the registry, and how the list operations of the service keep its parts.
pub mod Lists
pub mod Ports
pub mod Choice
pub mod Updates
use tailpreview.Base.{ℕ, ◌≤◌, ◌≡◌, ◌≢◌, false, List, [], ◌∷◌}
use tailpreview.Base.Lists.{All}
use tailpreview.Base.Strings.{Text, text_eq}
use tailpreview.Model.{Preview, PortReservation, Registry, registry_version}
use tailpreview.Host.{Service}
use tailpreview.Service.Port.{port_start, port_end, gateway_for}

-- Two previews differ in identifier and in HTTPS port.
abbrev pub Apart : Preview → Preview → Type 0
Apart p q = (text_eq p.id q.id ≡ false) × (p.external_port ≢ q.external_port)

abbrev pub Unique : List Preview → Type 0
Unique [] = Unit
Unique (p ∷ ps) = All (Apart p) ps × Unique ps

abbrev pub InPool : Service → ℕ → Type 0
InPool s p = (port_start s ≤ p) × (p ≤ port_end s)

-- The port is in the pool, and the gateway is the one that belongs to it.
abbrev pub Placed : Service → Preview → Type 0
Placed s p = InPool s p.external_port × (p.gateway_port ≡ gateway_for s p.external_port)

abbrev pub Reserved : Service → Text × PortReservation → Type 0
Reserved s e = InPool s e.1.port

pub record IsValid (s : Service) (reg : Registry) : Type 0 where
  pub version_supported : reg.version ≡ registry_version
  pub unique : Unique reg.previews
  pub placed : All (Placed s) reg.previews
  pub reserved : All (Reserved s) reg.reservations

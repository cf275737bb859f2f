-- ===== src/Service/Command.antt =====
-- The methods of Service (internal/app/service.go) that main.go calls, each as one step of the world.
pub mod Atomic
pub mod Valid
pub mod Sweep
pub mod Invariant
pub mod Work
pub mod Session
use tailpreview.Base.{true, false, List, [], ◌∷◌}
use tailpreview.Base.Strings.{Text}
use tailpreview.Host.{Service, World}
use tailpreview.Host.Monad.{M, pure, continue, ◌>>=◌}
use tailpreview.Service.Up.{UpRequest, up}
use tailpreview.Service.Check.{check}
use tailpreview.Service.Down.{down}
use tailpreview.Service.Gc.{gc}
use tailpreview.Service.Listing.{list, set_pinned}

-- One call of a method.
pub data Command : Type 0 where
  up_command : UpRequest → Command
  down_command check_command pin_command unpin_command : Text → Command
  list_command gc_command : Command

abbrev pub done : {A : Type 0} → M A → M (Unit {0})
done m = m >>= λ _. pure tt

unfoldable pub run_command : Service → Command → M (Unit {0})
run_command s (up_command request) = done (up s request)
run_command s (down_command selector) = done (down s selector)
run_command s (check_command selector) = done (check s selector)
run_command s (pin_command selector) = done (set_pinned s selector true)
run_command s (unpin_command selector) = done (set_pinned s selector false)
run_command s list_command = done (list s)
run_command s gc_command = done (gc s)

-- One command after the other; each run of the program ends before the next takes the lock.
unfoldable pub run_commands : Service → List Command → World → World
run_commands s [] w = w
run_commands s (c ∷ cs) w = run_commands s cs (run_command s c w).1

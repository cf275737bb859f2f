-- ===== src/Tests/Runs.antt =====
-- Runs of the operations on the fixtures.
use tailpreview.Base.{ℕ, map, List}
use tailpreview.Base.Strings.{codes}
use tailpreview.Service.Up.{up}
use tailpreview.Service.Gc.{gc}
use tailpreview.Service.Down.{down}
use tailpreview.Host.{Event, World}
use tailpreview.Tests.Fixtures.{good, start, third}

abbrev ports : World → List ℕ
ports w = map (λ p. p.external_port) w.disk.previews

up_run : List ℕ
up_run = ports (up good third start).1

gc_run : List ℕ
gc_run = ports (gc good start).1

down_run : List ℕ
down_run = ports (down good (codes "/a/one") start).1

up_events : List Event
up_events = (up good third start).1.history

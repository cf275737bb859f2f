-- ===== src/Tests/Witnesses.antt =====
-- The theorems at concrete inputs.
use tailpreview.Base.{refl, arith}
use tailpreview.Base.Strings.{text_eq}
use tailpreview.Service.Valid.{IsValid}
use tailpreview.Service.Port.{port_start, port_end, gateway_for}
use tailpreview.Service.Command.{up_command, run_command}
use tailpreview.Service.Command.Session.{Session, run_command-Session}
use tailpreview.Tests.Fixtures.{good, start, third, two_previews}

pub two_previews-IsValid : IsValid good two_previews
unfolding port_start port_end gateway_for text_eq
two_previews-IsValid = record {
  version_supported = refl;
  unique = (((refl, omega arith), tt), (tt, tt));
  placed = (((omega arith, omega arith), refl), (((omega arith, omega arith), refl), tt));
  reserved = tt;
}

run_command-Session_example :
    Session start.history (run_command good (up_command third) start).1.history
run_command-Session_example = run_command-Session good (up_command third) start

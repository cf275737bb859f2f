-- ===== src/Tests/Tools.antt =====
-- The theorems on the scheduler and the doctor on a system where every call succeeds.
use tailpreview.Base.{◌≡◌, ◌↔◌, refl, zero, true, false, none, []}
use tailpreview.Base.Strings.{Text, codes, text_eq}
use tailpreview.Base.Outcome.{ok}
use tailpreview.Store.{Disk}
use tailpreview.Scheduler.{
  linux, System, xml_escape, install, install_systemd, uninstall, remove_unit,
}
use tailpreview.Scheduler.Escape.{HasNoMarkup, xml_unescape, xml_escape_lem}
use tailpreview.Scheduler.Installed.{SameFiles, installed, cleared, install_lem}
use tailpreview.Doctor.{Calls, run}
use tailpreview.Doctor.Healthy.{IsReady, run_iff-IsReady}

xml_escape_lem_example :
    HasNoMarkup (xml_escape (codes "/opt/a&b/<tool>"))
    × (xml_unescape zero (xml_escape (codes "/opt/a&b/<tool>")) ≡ codes "/opt/a&b/<tool>")
xml_escape_lem_example = xml_escape_lem (codes "/opt/a&b/<tool>")

abbrev system : System
system = record {
  platform = linux;
  home = ok (codes "/home/me");
  user_id = codes "501";
  run = λ command. none;
  make_directory = λ path. none;
  write = λ path. none;
  remove = λ path. none;
}

abbrev fresh : Disk
fresh = record { files = λ path. none; past = [] }

abbrev binary : Text
binary = codes "/usr/bin/tailpreview"

abbrev after_install : Disk
after_install = (install system binary fresh).1

installs : install system binary fresh ≡ (
  ok (record {
    platform = "systemd";
    path = codes "/home/me/.config/systemd/user";
    action = "installed";
  }),
  after_install,
)
unfolding install install_systemd
installs = refl

uninstalls : uninstall system after_install ≡ (
  ok (record {
    platform = "systemd";
    path = codes "/home/me/.config/systemd/user";
    action = "uninstalled";
  }),
  (uninstall system after_install).1,
)
unfolding install install_systemd uninstall remove_unit text_eq
uninstalls = refl

install_lem_example :
    (home : Text) × (system.home ≡ ok home)
    × SameFiles after_install.files (installed system linux home binary fresh.files)
    × SameFiles (uninstall system after_install).1.files (cleared system linux home fresh.files)
install_lem_example =
    install_lem system binary fresh after_install (uninstall system after_install).1 _ _ installs
      uninstalls

abbrev calls : Calls
calls = record {
  look_caddy = ok (codes "/usr/bin/caddy");
  caddy_version = λ path. ok (codes "v2");
  look_tailscale = ok (codes "/usr/bin/tailscale");
  status = ok (record {
    backend_state = codes "Running";
    dns_name = codes "dev.ts.net";
    online = true;
    magic_dns_enabled = false;
    magic_dns_suffix = [];
    key_expiry = [];
  });
  parse_time = λ s. none;
  now = 0;
  show_duration = λ n. [];
  show_time = λ n. [];
  funnel = ok false;
  ensure = none;
  state_dir = codes "/s";
}

run_iff-IsReady_example : ((run calls).healthy ≡ true) ↔ IsReady calls
run_iff-IsReady_example = run_iff-IsReady calls

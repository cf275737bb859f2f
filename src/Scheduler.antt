-- ===== src/Scheduler.antt =====
-- internal/scheduler/scheduler.go: the periodic garbage collection as a launch agent or a systemd
-- timer. The runner, the home directory and the calls on files are a parameter.
pub mod Escape
pub mod Installed
use tailpreview.Base.{
  ℕ, String, Bool, true, false, Option, none, some, List, [], ◌∷◌, ◌++◌, ◌==◌, if◌then◌else◌, ◌≡◌,
  refl,
}
use tailpreview.Base.Strings.{Text, codes}
use tailpreview.Base.Outcome.{Outcome, ok, err}
use tailpreview.Errors.{Error, external, quoting}
use tailpreview.Store.{Files, put, Disk, Action, ◌>>=◌, ◌>>◌, call, same_files, of_json}

-- runtime.GOOS
pub data Platform : Type 0 where
  darwin linux : Platform
  other_platform : Text → Platform

pub record System : Type 0 where
  pub platform : Platform
  pub home : Outcome Text Text
  pub user_id : Text
  -- What Runner.Run answers to a command line, os.MkdirAll to a directory, atomicWrite to a path, and
  -- os.Remove to the path of a file that exists.
  pub run : List Text → Option Text
  pub make_directory : Text → Option Text
  pub write : Text → Option Text
  pub remove : Text → Option Text

pub record Result : Type 0 where
  pub platform : String
  pub path : Text
  pub action : String

-- strings.NewReplacer with these pairs.
unfoldable pub xml_escape : Text → Text
xml_escape [] = []
xml_escape (c ∷ s) =
    let rest : Text = xml_escape s in
    if c == b'&'
    then codes "&amp;" ++ rest
    else if c == b'<'
    then codes "&lt;" ++ rest
    else if c == b'>'
    then codes "&gt;" ++ rest
    else if c == b'"'
    then codes "&quot;" ++ rest
    else if c == b'\''
    then codes "&apos;" ++ rest
    else c ∷ rest

unfoldable pub systemd_escape : Text → Text
systemd_escape [] = []
systemd_escape (c ∷ s) =
    let rest : Text = systemd_escape s in if c == b' ' then codes "\\x20" ++ rest else c ∷ rest

abbrev pub agent_start : Text
agent_start =
    codes
      "<?xml version=\"1.0\" encoding=\"UTF-8\"?>\n<!DOCTYPE plist PUBLIC \"-//Apple//DTD PLIST 1.0//EN\" \"http://www.apple.com/DTDs/PropertyList-1.0.dtd\">\n<plist version=\"1.0\">\n<dict>\n  <key>Label</key><string>com.tailpreview.gc</string>\n  <key>ProgramArguments</key>\n  <array><string>"

abbrev pub agent_end : Text
agent_end =
    codes
      "</string><string>gc</string><string>--json</string><string>--non-interactive</string></array>\n  <key>StartInterval</key><integer>300</integer>\n  <key>RunAtLoad</key><true/>\n</dict>\n</plist>\n"

unfoldable pub render_launch_agent : Text → Text
unfolding xml_escape
render_launch_agent binary = agent_start ++ (xml_escape binary ++ agent_end)

unfoldable pub render_service : Text → Text
unfolding systemd_escape
render_service binary =
    codes
      "[Unit]\nDescription=Garbage-collect expired Tailpreview previews\n\n[Service]\nType=oneshot\nExecStart="
    ++ (systemd_escape binary ++ codes " gc --json --non-interactive\n")

abbrev pub timer_unit : Text
timer_unit =
    codes
      "[Unit]\nDescription=Run Tailpreview garbage collection every five minutes\n\n[Timer]\nOnBootSec=1min\nOnUnitActiveSec=5min\nPersistent=true\n\n[Install]\nWantedBy=timers.target\n"

abbrev pub agents_dir : Text → Text
agents_dir home = home ++ codes "/Library/LaunchAgents"

abbrev pub agent_path : Text → Text
agent_path home = agents_dir home ++ codes "/com.tailpreview.gc.plist"

abbrev pub units_dir : Text → Text
units_dir home = home ++ codes "/.config/systemd/user"

abbrev pub service_path : Text → Text
service_path home = units_dir home ++ codes "/tailpreview-gc.service"

abbrev pub timer_path : Text → Text
timer_path home = units_dir home ++ codes "/tailpreview-gc.timer"

abbrev pub words : List String → List Text
words [] = []
words (s ∷ ss) = codes s ∷ words ss

abbrev pub reload_command : List Text
reload_command = words ("systemctl" ∷ "--user" ∷ "daemon-reload" ∷ [])

abbrev pub enable_command : List Text
enable_command = words ("systemctl" ∷ "--user" ∷ "enable" ∷ "--now" ∷ "tailpreview-gc.timer" ∷ [])

abbrev pub disable_command : List Text
disable_command = words ("systemctl" ∷ "--user" ∷ "disable" ∷ "--now" ∷ "tailpreview-gc.timer" ∷ [])

abbrev pub done : Result → Action Result
done r d = (ok r, d)

-- `_, _ = runner.Run(...)`
abbrev pub attempt : Action (Unit {0}) → Action (Unit {0})
attempt m d = (ok tt, (m d).1)

-- os.Remove, where the error of a missing file is no error.
abbrev pub remove_existing : Text → Option Text → Option Text → Action (Unit {0})
remove_existing path answer none d = (ok tt, d)
remove_existing path answer (some content) d = call answer (put path none) d

-- os.UserHomeDir without its error.
abbrev pub home_or_empty : Outcome Text Text → Text
home_or_empty (ok home) = home
home_or_empty (err e) = []

module _ (sys : System) where
  abbrev pub run : List Text → Action (Unit {0})
  run command = call (sys.run command) same_files

  abbrev pub launchctl : String → Text → List Text
  launchctl verb path = codes "launchctl" ∷ codes verb ∷ (codes "gui/" ++ sys.user_id) ∷ path ∷ []

  -- atomicWrite
  abbrev pub write_unit : Text → Text → Action (Unit {0})
  write_unit path content = call (sys.write path) (put path (some content))

  unfoldable pub remove_unit : Text → Action (Unit {0})
  remove_unit path d = remove_existing path (sys.remove path) (d.files path) d

  unfoldable pub install_launch_agent : Text → Action Result
  unfolding render_launch_agent
  install_launch_agent binary = do
    home ← of_json sys.home
    call (sys.make_directory (agents_dir home)) same_files
    write_unit (agent_path home) (render_launch_agent binary)
    attempt (run (launchctl "bootout" (agent_path home)))
    run (launchctl "bootstrap" (agent_path home))
    done (record { platform = "launchd"; path = agent_path home; action = "installed" })

  unfoldable pub install_systemd : Text → Action Result
  unfolding render_service
  install_systemd binary = do
    home ← of_json sys.home
    call (sys.make_directory (units_dir home)) same_files
    write_unit (service_path home) (render_service binary)
    write_unit (timer_path home) timer_unit
    run reload_command
    run enable_command
    done (record { platform = "systemd"; path = units_dir home; action = "installed" })

  abbrev pub unsupported : Text → Action Result
  unsupported name d = (err (quoting "unsupported platform" name), d)

  abbrev pub install_on : Platform → Text → Action Result
  install_on darwin binary = install_launch_agent binary
  install_on linux binary = install_systemd binary
  install_on (other_platform name) binary = unsupported name

  -- Install
  unfoldable pub install : Text → Action Result
  unfolding install_launch_agent install_systemd
  install binary = install_on sys.platform binary

  abbrev pub uninstall_launch_agent : Text → Action Result
  uninstall_launch_agent home = do
    attempt (run (launchctl "bootout" (agent_path home)))
    remove_unit (agent_path home)
    done (record { platform = "launchd"; path = agent_path home; action = "uninstalled" })

  abbrev pub uninstall_systemd : Text → Action Result
  uninstall_systemd home = do
    attempt (run disable_command)
    remove_unit (service_path home)
    remove_unit (timer_path home)
    attempt (run reload_command)
    done (record { platform = "systemd"; path = units_dir home; action = "uninstalled" })

  abbrev pub uninstall_on : Platform → Action Result
  uninstall_on darwin = uninstall_launch_agent (home_or_empty sys.home)
  uninstall_on linux = uninstall_systemd (home_or_empty sys.home)
  uninstall_on (other_platform name) = unsupported name

  -- Uninstall
  unfoldable pub uninstall : Action Result
  unfolding remove_unit
  uninstall = uninstall_on sys.platform

escapes : xml_escape (codes "/a&b") ≡ codes "/a&amp;b"
unfolding xml_escape
escapes = refl

-- ===== src/Cli/Exit.antt =====
-- run of cmd/tailpreview/main.go with its exit code, and the commands that do not call the service.
use tailpreview.Base.{ℕ, Bool, true, false, List, [], ◌∷◌, if◌then◌else◌}
use tailpreview.Base.Strings.{Text, codes, text_eq}
use tailpreview.Base.Outcome.{Outcome, ok, err}
use tailpreview.Errors.{Error, ErrorPayload, error_payload, plain, quoting}
use tailpreview.Arguments.{contains_arg}
use tailpreview.Store.{Action, of_json, ◌>>=◌}
use tailpreview.Scheduler.{System, Result, install, uninstall}
use tailpreview.Directories.{Directories, Environment, resolve, ensure}
use tailpreview.Doctor.{Calls, Report, run}

-- What run itself prints: the help, an error alone, after the word error, or as JSON.
pub data Message : Type 0 where
  nothing usage : Message
  bare_message text_message : Error → Message
  json_message : ErrorPayload → Message

-- Error() of an error, and errors.Is with flag.ErrHelp.
pub record Errors : Type 0 where
  pub text : Error → Text
  pub is_help : Error → Bool

abbrev pub message_of : Errors → Bool → Error → Message
message_of errors true e = json_message (error_payload (errors.text e) e)
message_of errors false e = text_message e

abbrev pub exit_code : Bool → ℕ
exit_code true = 0
exit_code false = 1

-- The end of a command.
abbrev pub finished : Errors → List Text → Outcome Error (Unit {0}) → ℕ × Message
finished errors args (ok _) = (0, nothing)
finished errors args (err e) =
    (exit_code (errors.is_help e), message_of errors (contains_arg args (codes "--json")) e)

abbrev pub prepared :
    Errors
    → List Text
    → Outcome Error (Unit {0})
    → (Unit {0} → Outcome Error (Unit {0}))
    → ℕ × Message
prepared errors args (err e) execute = (1, bare_message e)
prepared errors args (ok _) execute = finished errors args (execute tt)

-- run, where `execute` is the command on the directories.
unfoldable pub run_program_with :
    Errors → Environment → (Directories → Outcome Error (Unit {0})) → List Text → ℕ × Message
unfolding contains_arg resolve ensure error_payload
run_program_with errors env execute [] = (2, usage)
run_program_with errors env execute (a ∷ args) = elim (resolve env) [
  | err e ↦ (1, bare_message e)
  | ok d ↦ prepared errors (a ∷ args) (ensure env d) (λ _. execute d)
]

-- cli.doctor after its flags: the report, and the error after it.
unfoldable pub doctor_command : Calls → Report × Outcome Error (Unit {0})
unfolding run
doctor_command calls =
    let report : Report = run calls in
    (report, if report.healthy then ok tt else err (plain "doctor found blocking issues"))

abbrev pub service_action : System → Text → Text → Action Result
service_action sys action binary d =
    if text_eq action (codes "install")
    then install sys binary d
    else if text_eq action (codes "uninstall")
    then uninstall sys d
    else (err (quoting "unknown service action" action), d)

-- cli.scheduler, with what os.Executable answers.
unfoldable pub service_command : System → Outcome Text Text → List Text → Action Result
unfolding install uninstall text_eq
service_command sys executable [] d = (err (plain "service requires install or uninstall"), d)
service_command sys executable (action ∷ args) d =
    (of_json executable >>= service_action sys action) d

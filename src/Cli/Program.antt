-- ===== src/Cli/Program.antt =====
-- The commands of cmd/tailpreview/main.go: what each takes from its arguments, the call of the
-- service, and what it answers with. Printing is not modelled.
pub mod Found
pub mod Steps
pub mod Failed
use tailpreview.Base.{Bool, true, false, ◌||◌, List, [], ◌∷◌, ◌++◌, if◌then◌else◌}
use tailpreview.Base.Strings.{Text, codes, text_eq}
use tailpreview.Base.Outcome.{Outcome, ok, err}
use tailpreview.Errors.{Error, not_found}
use tailpreview.Model.{Preview}
use tailpreview.Host.{Service, World}
use tailpreview.Host.Monad.{M, pure, lift, ◌>>=◌}
use tailpreview.Service.Up.{UpResult, up}
use tailpreview.Service.Check.{CheckResult, check}
use tailpreview.Service.Down.{ActionResult, down}
use tailpreview.Service.Gc.{gc}
use tailpreview.Service.Listing.{list, set_pinned}
use tailpreview.Cli.{Shell, UpFlags}
use tailpreview.Cli.Project.{selector_from_args}
use tailpreview.Cli.Flags.{up_request}

-- A command with its flags or its positional arguments.
pub data Invocation : Type 0 where
  up_with : UpFlags → Invocation
  down_with check_with status_with logs_with pin_with unpin_with : List Text → Invocation
  list_all collect_garbage : Invocation

-- What is printed.
pub data Answer : Type 0 where
  published : UpResult → Answer
  acted : ActionResult → Answer
  checked : CheckResult → Answer
  listed : List Preview → Answer
  shown : Preview → Answer
  log_file : Preview → Text → Answer

abbrev pub answer : {A : Type 0} → (A → Answer) → M A → M Answer
answer f m = m >>= λ a. pure (f a)

-- The loop of `status` and `logs`.
unfoldable pub find_listed : Text → List Preview → Outcome Error Preview
unfolding text_eq
find_listed selector [] = err (not_found selector)
find_listed selector (p ∷ ps) =
    let rest : Outcome Error Preview = find_listed selector ps in
    if text_eq p.id selector || text_eq p.name selector || text_eq p.project_root selector
    then ok p
    else rest

abbrev pub log_path : Text → Preview → Answer
log_path logs_dir p = log_file p (logs_dir ++ b'/' ∷ (p.id ++ codes ".jsonl"))

module _ (s : Service) (shell : Shell) (logs_dir : Text) where
  abbrev pub with_selector : List Text → (Text → M Answer) → M Answer
  with_selector args act = lift (selector_from_args shell args) >>= act

  -- The methods of cli.
  abbrev pub invoke_up : UpFlags → M Answer
  invoke_up flags = lift (up_request shell flags) >>= λ r. answer published (up s r)

  abbrev pub invoke_down : List Text → M Answer
  invoke_down args = with_selector args λ sel. answer acted (down s sel)

  abbrev pub invoke_check : List Text → M Answer
  invoke_check args = with_selector args λ sel. answer checked (check s sel)

  abbrev pub invoke_list : M Answer
  invoke_list = answer listed (list s)

  abbrev pub invoke_status : List Text → M Answer
  invoke_status args =
      with_selector args λ sel. list s >>= λ ps. answer shown (lift (find_listed sel ps))

  abbrev pub invoke_logs : List Text → M Answer
  invoke_logs args =
      with_selector args
        λ sel. list s >>= λ ps. answer (log_path logs_dir) (lift (find_listed sel ps))

  abbrev pub invoke_pin : Bool → List Text → M Answer
  invoke_pin pinned args = with_selector args λ sel. answer acted (set_pinned s sel pinned)

  abbrev pub invoke_gc : M Answer
  invoke_gc = answer acted (gc s)

  unfoldable pub execute : Invocation → M Answer
  unfolding up_request selector_from_args up down check set_pinned list gc find_listed
  execute (up_with flags) = invoke_up flags
  execute (down_with args) = invoke_down args
  execute (check_with args) = invoke_check args
  execute (status_with args) = invoke_status args
  execute (logs_with args) = invoke_logs args
  execute (pin_with args) = invoke_pin true args
  execute (unpin_with args) = invoke_pin false args
  execute list_all = invoke_list
  execute collect_garbage = invoke_gc

-- One invocation after the other, each with its own directory, environment and flags.
unfoldable pub run_program : Service → Text → List (Shell × Invocation) → World → World
unfolding execute
run_program s logs_dir [] w = w
run_program s logs_dir ((shell, i) ∷ rest) w =
    run_program s logs_dir rest (execute s shell logs_dir i w).1

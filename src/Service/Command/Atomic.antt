-- ===== src/Service/Command/Atomic.antt =====
-- A command that fails leaves the registry file as it was.
use tailpreview.Base.{Bool, ℕ, true, false, Option, none, some, List, [], ◌∷◌, ◌≡◌, refl}
use tailpreview.Base.Strings.{Text}
use tailpreview.Base.Outcome.{err}
use tailpreview.Model.{Preview, Registry}
use tailpreview.Errors.{Error}
use tailpreview.Host.{Service, World}
use tailpreview.Host.Monad.{M, pure, ◌>>=◌}
use tailpreview.Host.Calls.{remove_logs}
use tailpreview.Host.Keeps.{
  Silent, Atomic, Silent-bind, Silent-remove_logs, Silent-pure, Silent-now, Silent-ask,
  Silent-check_once, Silent-tailscale_status, Silent-port_available, Silent-funnel, Silent-verify,
  Silent-apply, Silent-remove, Silent-fail, Silent-active_requests, Atomic-bind, Atomic-then,
  Atomic-save, Silent-Atomic, Atomic-with_registry, silent_rules,
}
use tailpreview.Service.Select.{Found}
use tailpreview.Service.Undo.{Silent-or_undo, Atomic-or_undo}
use tailpreview.Service.Atomic.{Succeeds, require-Silent, up-Atomic}
use tailpreview.Service.Check.{check_found, check, found_or_fail}
use tailpreview.Service.Down.{down_found, down, undo_down}
use tailpreview.Service.Gc.{
  Sweep, sweep, collect, gc, finish_quiet, finish_removal, remove_all, remove_all_logs, expose_all,
  undo_gc, finish,
}
use tailpreview.Service.Listing.{list_previews, list, pin_found, set_pinned}
use tailpreview.Service.Command.{
  Command, up_command, down_command, check_command, pin_command, unpin_command, list_command,
  gc_command, run_command, done,
}

-- A command's result is dropped; whether it failed is not.
Atomic-done : {A : Type 0} (m : M A) → Atomic m → Atomic (done m)
Atomic-done m h = Atomic-then m _ h λ a w. (tt, refl)

Atomic-found :
    {A : Type 0} (selector : Text) (f : Option Found) (k : Found → M A)
    → ((x : Found) → Atomic (k x))
    → Atomic (found_or_fail selector f k)
Atomic-found selector none k h = Silent-Atomic _ (Silent-fail _)
Atomic-found selector (some x) k h = h x

module _ (s : Service) where
  pub undo_down-Silent : (f : Found) → Silent (undo_down s f)
  unfolding undo_down
  undo_down-Silent f = search silent_rules

  logs_then : {A : Type 0} (id : Text) (a : A) → Succeeds (remove_logs s id >>= λ _. pure a)
  unfolding remove_logs
  logs_then id a w = (a, refl)

  down_found-Atomic : (reg : Registry) (f : Found) → Atomic (down_found s reg f)
  unfolding down_found
  down_found-Atomic reg f = Atomic-bind _ _ (Silent-apply s _) λ _.
      Atomic-bind _ _ (Silent-or_undo _ _ _ (Silent-remove s _) (search silent_rules)) λ _.
        Atomic-bind _ _ (Silent-now s) λ time.
          Atomic-then _ _ (Atomic-or_undo _ _ _ (Atomic-save s _) (undo_down-Silent f))
            λ _. logs_then f.preview.id _

  check_found-Atomic : (reg : Registry) (f : Found) → Atomic (check_found s reg f)
  unfolding check_found
  check_found-Atomic reg f = Atomic-bind _ _ (Silent-check_once s _) λ _.
      Atomic-bind _ _ (require-Silent s _ _) λ _.
        Atomic-bind _ _ (Silent-tailscale_status s) λ status.
          Atomic-bind _ _ (require-Silent s _ _) λ _. Atomic-bind _ _ (require-Silent s _ _) λ _.
            Atomic-bind _ _ (Silent-port_available s _) λ _.
              Atomic-bind _ _ (require-Silent s _ _) λ _. Atomic-bind _ _ (Silent-funnel s _) λ _.
                Atomic-bind _ _ (require-Silent s _ _) λ _.
                  Atomic-bind _ _ (require-Silent s _ _) λ _.
                    Atomic-bind _ _ (Silent-verify s _ _)
                      λ report. Atomic-then _ _ (Atomic-save s _) λ _ w. (_, refl)

  list_previews-Atomic : (reg : Registry) → Atomic (list_previews s reg)
  unfolding list_previews
  list_previews-Atomic reg = Atomic-bind _ _ (Silent-now s) λ time.
      Atomic-bind _ _ (Silent-ask _) λ log_time. Atomic-then _ _ (Atomic-save s _) λ _ w. (_, refl)

  pin_found-Atomic : (b : Bool) (reg : Registry) (f : Found) → Atomic (pin_found s b reg f)
  unfolding pin_found
  pin_found-Atomic b reg f =
      Atomic-bind _ _ (Silent-now s) λ time. Atomic-then _ _ (Atomic-save s _) λ _ w. (_, refl)

  pub sweep-Silent :
      (now : ℕ) (active : List (Text × ℕ)) (ps : List Preview) (acc : Sweep)
      → Silent (sweep s now active ps acc)
  unfolding sweep
  sweep-Silent now active [] acc = Silent-pure acc
  sweep-Silent now active (p ∷ ps) acc =
      Silent-bind _ _ (Silent-check_once s _) λ health. sweep-Silent now active ps _

  expose_all-Silent : (ps : List Preview) → Silent (expose_all s ps)
  unfolding expose_all
  expose_all-Silent [] = Silent-pure tt
  expose_all-Silent (p ∷ ps) = let ih = expose_all-Silent ps in search silent_rules

  pub undo_gc-Silent : (old removed : List Preview) → Silent (undo_gc s old removed)
  unfolding undo_gc
  undo_gc-Silent old removed = search (silent_rules, expose_all-Silent)

  pub remove_all-Silent :
      (undo : M (Unit {0})) (ps : List Preview) → Silent undo → Silent (remove_all s undo ps)
  unfolding remove_all
  remove_all-Silent undo [] h = Silent-pure tt
  remove_all-Silent undo (p ∷ ps) h =
      Silent-bind _ _ (Silent-or_undo _ _ _ (Silent-remove s _) h) λ _. remove_all-Silent undo ps h

  pub remove_all_logs-Silent : (ps : List Preview) → Silent (remove_all_logs s ps)
  unfolding remove_all_logs
  remove_all_logs-Silent [] = Silent-pure tt
  remove_all_logs-Silent (p ∷ ps) =
      Silent-bind _ _ (Silent-remove_logs s _) λ _. remove_all_logs-Silent ps

  all_logs_then :
      {A : Type 0} (ps : List Preview) (a : A) → Succeeds (remove_all_logs s ps >>= λ _. pure a)
  unfolding remove_all_logs remove_logs
  all_logs_then [] a w = (a, refl)
  all_logs_then (p ∷ ps) a w = all_logs_then ps a _

  finish-Atomic :
      (time : ℕ) (reg : Registry) (sw : Sweep) (ps : List Preview)
      → Atomic (finish s time reg sw ps)
  unfolding finish_quiet finish_removal
  finish-Atomic time reg sw [] =
      Atomic-bind _ _ (Silent-apply s _) λ _. Atomic-then _ _ (Atomic-save s _) λ _ w. (_, refl)
  finish-Atomic time reg sw (p ∷ ps) = Atomic-bind _ _ (Silent-apply s _) λ _.
      Atomic-bind _ _ (remove_all-Silent _ sw.removed (undo_gc-Silent _ _)) λ _.
        Atomic-then _ _ (Atomic-or_undo _ _ _ (Atomic-save s _) (undo_gc-Silent _ _))
          λ _. all_logs_then sw.removed _

  collect-Atomic : (reg : Registry) → Atomic (collect s reg)
  unfolding collect
  collect-Atomic reg = Atomic-bind _ _ (Silent-now s) λ time.
      Atomic-bind _ _ (Silent-ask _) λ log_time.
        Atomic-bind _ _ (Silent-active_requests s) λ active.
          Atomic-bind _ _ (sweep-Silent time active _ _) λ sw. finish-Atomic time _ sw sw.removed

  run_command-Atomic : (c : Command) → Atomic (run_command s c)
  unfolding run_command down check list set_pinned gc
  run_command-Atomic (up_command r) = Atomic-done _ (up-Atomic s r)
  run_command-Atomic (down_command sel) =
      Atomic-done _ (Atomic-with_registry s _ λ reg. Atomic-found sel _ _ (down_found-Atomic reg))
  run_command-Atomic (check_command sel) =
      Atomic-done _ (Atomic-with_registry s _ λ reg. Atomic-found sel _ _ (check_found-Atomic reg))
  run_command-Atomic (pin_command sel) =
      Atomic-done _
        (Atomic-with_registry s _ λ reg. Atomic-found sel _ _ (pin_found-Atomic true reg))
  run_command-Atomic (unpin_command sel) =
      Atomic-done _
        (Atomic-with_registry s _ λ reg. Atomic-found sel _ _ (pin_found-Atomic false reg))
  run_command-Atomic list_command = Atomic-done _ (Atomic-with_registry s _ list_previews-Atomic)
  run_command-Atomic gc_command = Atomic-done _ (Atomic-with_registry s _ collect-Atomic)

-- Whatever the collaborators answer, a method of Service that returns an error leaves the registry file exactly
-- as it found it: Save is the last step that can fail in every method.
pub failed_command_keeps_registry :
    (s : Service) (c : Command) (w : World) (e : Error)
    → (run_command s c w).0 ≡ err e
    → (run_command s c w).1.disk ≡ w.disk
failed_command_keeps_registry s c w e h = (run_command-Atomic s c).at w e h

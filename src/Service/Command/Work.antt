-- ===== src/Service/Command/Work.antt =====
-- The parts of the service's methods that run under the lock neither take it nor give it back.
use tailpreview.Base.{ℕ, Bool, true, false, Option, none, some, List, [], ◌∷◌}
use tailpreview.Base.Strings.{Text}
use tailpreview.Base.Outcome.{Outcome, ok, err}
use tailpreview.Model.{Preview, Registry}
use tailpreview.Errors.{Error}
use tailpreview.Host.{Service, World}
use tailpreview.Host.Monad.{M}
use tailpreview.Host.Session.{
  IsWork, Extends, same, Extends-trans, Records, Records-bind, Records-pure, Records-fail,
  Records-lift, Work-remove, Work-check_once, Work-remove_logs, work_rules,
}
use tailpreview.Service.Select.{Found}
use tailpreview.Service.Port.{
  Choice, probe, or_evict, choice_of, first_free, evict, allocate, choose_port,
}
use tailpreview.Service.Up.{
  UpRequest, Plan, plan_up, execute_up, up_locked, undo_expose, undo_all, expose_again,
  remove_moved, forget_logs, require, undone, or_undo,
}
use tailpreview.Service.Check.{check_found, found_or_fail}
use tailpreview.Service.Down.{down_found, undo_down}
use tailpreview.Service.Gc.{
  Sweep, sweep, collect, finish_quiet, finish_removal, remove_all, remove_all_logs, expose_all,
  undo_gc, finish,
}
use tailpreview.Service.Listing.{list_previews, pin_found}

abbrev pub Works : {A : Type 0} → M A → Type 0
Works m = Records IsWork m

module _ {A : Type 0} where
  undone-Works :
      (r : Outcome Error A) (undo : M (Unit {0})) (f : Error → Error) (w : World)
      → Works undo
      → Extends IsWork w.history (undone r undo f w).1.history
  undone-Works (ok a) undo f w k = same
  undone-Works (err e) undo f w k = k.at w

  or_undo-Works :
      (m : M A) (undo : M (Unit {0})) (f : Error → Error)
      → Works m
      → Works undo
      → Works (or_undo m undo f)
  or_undo-Works m undo f h k = record {
    at = λ w. Extends-trans IsWork _ _ _ (h.at w) (undone-Works (m w).0 undo f (m w).1 k);
  }

  pub found-Works :
      (selector : Text) (f : Option Found) (k : Found → M A)
      → ((x : Found) → Works (k x))
      → Works (found_or_fail selector f k)
  found-Works selector none k h = Records-fail IsWork _
  found-Works selector (some x) k h = h x

module _ (s : Service) where
  require-Works : (b : Bool) (e : Error) → Works (require b e)
  unfolding require
  require-Works b e = search work_rules

  probe-Works :
      (requested p : ℕ) (free : Bool) (rest : M (Option Choice))
      → Works rest
      → Works (probe s requested p free rest)
  probe-Works requested p true rest h = search work_rules
  probe-Works requested p false rest h = search work_rules

  first_free-Works :
      (ps : List Preview) (requested : ℕ) (ports : List ℕ) → Works (first_free s ps requested ports)
  unfolding first_free
  first_free-Works ps requested [] = Records-pure IsWork none
  first_free-Works ps requested (p ∷ rest) =
      let ih = first_free-Works ps requested rest in search (work_rules, probe-Works)

  evict-Works : (ps : List Preview) → Works (evict s ps)
  unfolding evict
  evict-Works ps = search work_rules

  or_evict-Works : (ps : List Preview) (c : Option Choice) → Works (or_evict s ps c)
  or_evict-Works ps none = evict-Works ps
  or_evict-Works ps (some c) = Records-pure IsWork c

  allocate-Works :
      (reg : Registry) (id : Text) (requested : ℕ) → Works (allocate s reg id requested)
  unfolding allocate
  allocate-Works reg id requested = search (work_rules, first_free-Works, or_evict-Works)

  choice_of-Works :
      (f : Option Found) (reg : Registry) (id : Text) (requested : ℕ)
      → Works (choice_of s reg id requested f)
  choice_of-Works none reg id requested = allocate-Works reg id requested
  choice_of-Works (some f) reg id requested = Records-lift IsWork _

  choose_port-Works :
      (reg : Registry) (id : Text) (requested : ℕ) → Works (choose_port s reg id requested)
  unfolding choose_port
  choose_port-Works reg id requested = choice_of-Works _ reg id requested

  plan_up-Works : (request : UpRequest) (reg : Registry) → Works (plan_up s request reg)
  unfolding plan_up
  plan_up-Works request reg = search (work_rules, choose_port-Works, require-Works) depth 12

  expose_again-Works : (v : Option Preview) → Works (expose_again s v)
  expose_again-Works none = Records-pure IsWork tt
  expose_again-Works (some v) = search work_rules

  undo_expose-Works : (plan : Plan) → Works (undo_expose s plan)
  unfolding undo_expose
  undo_expose-Works plan = search (work_rules, expose_again-Works)

  undo_all-Works : (plan : Plan) (v : Option Preview) → Works (undo_all s plan v)
  unfolding undo_all
  undo_all-Works plan v = search (work_rules, expose_again-Works)

  remove_moved-Works : (plan : Plan) (v : Option Preview) → Works (remove_moved s plan v)
  remove_moved-Works plan none = Records-pure IsWork tt
  remove_moved-Works plan (some v) =
      or_undo-Works _ _ _ (Work-remove s _) (undo_all-Works plan (some v))

  forget_logs-Works : (v : Option Preview) → Works (forget_logs s v)
  forget_logs-Works none = Records-pure IsWork tt
  forget_logs-Works (some v) = Work-remove_logs s _

  execute_up-Works : (plan : Plan) → Works (execute_up s plan)
  unfolding execute_up
  execute_up-Works plan =
      search
        (
          work_rules, or_undo-Works, undo_expose-Works, undo_all-Works, remove_moved-Works,
          forget_logs-Works,
        )
        depth 20

  pub up_locked-Works : (request : UpRequest) (reg : Registry) → Works (up_locked s request reg)
  unfolding up_locked
  up_locked-Works request reg = Records-bind IsWork _ _ (plan_up-Works request reg) execute_up-Works

  undo_down-Works : (f : Found) → Works (undo_down s f)
  unfolding undo_down
  undo_down-Works f = search work_rules

  pub down_found-Works : (reg : Registry) (f : Found) → Works (down_found s reg f)
  unfolding down_found
  down_found-Works reg f = search (work_rules, or_undo-Works, undo_down-Works) depth 16

  pub check_found-Works : (reg : Registry) (f : Found) → Works (check_found s reg f)
  unfolding check_found
  check_found-Works reg f = search (work_rules, require-Works) depth 24

  pub list_previews-Works : (reg : Registry) → Works (list_previews s reg)
  unfolding list_previews
  list_previews-Works reg = search work_rules

  pub pin_found-Works : (b : Bool) (reg : Registry) (f : Found) → Works (pin_found s b reg f)
  unfolding pin_found
  pin_found-Works b reg f = search work_rules

  sweep-Works :
      (now : ℕ) (active : List (Text × ℕ)) (ps : List Preview) (acc : Sweep)
      → Works (sweep s now active ps acc)
  unfolding sweep
  sweep-Works now active [] acc = Records-pure IsWork acc
  sweep-Works now active (p ∷ ps) acc =
      Records-bind IsWork _ _ (Work-check_once s _) λ health. sweep-Works now active ps _

  expose_all-Works : (ps : List Preview) → Works (expose_all s ps)
  unfolding expose_all
  expose_all-Works [] = Records-pure IsWork tt
  expose_all-Works (p ∷ ps) = let ih = expose_all-Works ps in search work_rules

  undo_gc-Works : (old removed : List Preview) → Works (undo_gc s old removed)
  unfolding undo_gc
  undo_gc-Works old removed = search (work_rules, expose_all-Works)

  remove_all-Works :
      (undo : M (Unit {0})) (ps : List Preview) → Works undo → Works (remove_all s undo ps)
  unfolding remove_all
  remove_all-Works undo [] h = Records-pure IsWork tt
  remove_all-Works undo (p ∷ ps) h =
      Records-bind IsWork _ _ (or_undo-Works _ _ _ (Work-remove s _) h)
        λ _. remove_all-Works undo ps h

  remove_all_logs-Works : (ps : List Preview) → Works (remove_all_logs s ps)
  unfolding remove_all_logs
  remove_all_logs-Works [] = Records-pure IsWork tt
  remove_all_logs-Works (p ∷ ps) =
      Records-bind IsWork _ _ (Work-remove_logs s _) λ _. remove_all_logs-Works ps

  finish-Works :
      (time : ℕ) (reg : Registry) (sw : Sweep) (ps : List Preview) → Works (finish s time reg sw ps)
  unfolding finish_quiet finish_removal
  finish-Works time reg sw [] = search work_rules
  finish-Works time reg sw (p ∷ ps) =
      search (work_rules, or_undo-Works, undo_gc-Works, remove_all-Works, remove_all_logs-Works)
        depth 16

  pub collect-Works : (reg : Registry) → Works (collect s reg)
  unfolding collect
  collect-Works reg = search (work_rules, sweep-Works, finish-Works) depth 12

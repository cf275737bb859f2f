-- ===== src/Service/Atomic.antt =====
-- Which parts of the service's methods write the registry file, and that a method that fails has not.
use tailpreview.Base.{ℕ, Bool, true, false, Option, none, some, List, [], ◌∷◌, ◌≡◌, refl}
use tailpreview.Base.Strings.{Text}
use tailpreview.Base.Outcome.{ok}
use tailpreview.Model.{Preview, Registry}
use tailpreview.Errors.{Error}
use tailpreview.Host.{Service, World}
use tailpreview.Host.Monad.{M, pure, ◌>>=◌}
use tailpreview.Host.Calls.{remove_logs}
use tailpreview.Host.Keeps.{
  Silent, Atomic, Silent-pure, Silent-wait, Silent-expose, Silent-lift, Silent-remove, Atomic-bind,
  Atomic-then, Atomic-save, Atomic-with_registry, silent_rules, Silent-apply, Silent-verify,
}
use tailpreview.Service.Select.{Found}
use tailpreview.Config.{Resolved}
use tailpreview.Service.Port.{
  Choice, probe, or_evict, choice_of, first_free, evict, allocate, choose_port,
}
use tailpreview.Service.Undo.{Silent-or_undo, Atomic-or_undo}
use tailpreview.Service.Up.{
  UpRequest, with_health, Plan, plan_up, execute_up, up_locked, up, undo_expose, undo_all,
  expose_again, remove_moved, wait_unless, forget_logs, require,
}

module _ (s : Service) where
  probe-Silent :
      (requested p : ℕ) (free : Bool) (rest : M (Option Choice))
      → Silent rest
      → Silent (probe s requested p free rest)
  probe-Silent requested p true rest h = search silent_rules
  probe-Silent requested p false rest h = search silent_rules

  first_free-Silent :
      (ps : List Preview) (requested : ℕ) (ports : List ℕ)
      → Silent (first_free s ps requested ports)
  unfolding first_free
  first_free-Silent ps requested [] = Silent-pure none
  first_free-Silent ps requested (p ∷ rest) =
      let ih = first_free-Silent ps requested rest in search (silent_rules, probe-Silent)

  evict-Silent : (ps : List Preview) → Silent (evict s ps)
  unfolding evict
  evict-Silent ps = search silent_rules

  or_evict-Silent : (ps : List Preview) (c : Option Choice) → Silent (or_evict s ps c)
  or_evict-Silent ps none = evict-Silent ps
  or_evict-Silent ps (some c) = Silent-pure c

  allocate-Silent :
      (reg : Registry) (id : Text) (requested : ℕ) → Silent (allocate s reg id requested)
  unfolding allocate
  allocate-Silent reg id requested = search (silent_rules, first_free-Silent, or_evict-Silent)

  choice_of-Silent :
      (f : Option Found) (reg : Registry) (id : Text) (requested : ℕ)
      → Silent (choice_of s reg id requested f)
  choice_of-Silent none reg id requested = allocate-Silent reg id requested
  choice_of-Silent (some f) reg id requested = Silent-lift _

  pub choose_port-Silent :
      (reg : Registry) (id : Text) (requested : ℕ) → Silent (choose_port s reg id requested)
  unfolding choose_port
  choose_port-Silent reg id requested = choice_of-Silent _ reg id requested

  pub require-Silent : (b : Bool) (e : Error) → Silent (require b e)
  unfolding require
  require-Silent b e = search silent_rules

  pub plan_up-Silent : (request : UpRequest) (reg : Registry) → Silent (plan_up s request reg)
  unfolding plan_up
  plan_up-Silent request reg = search (silent_rules, choose_port-Silent, require-Silent) depth 12

  expose_again-Silent : (v : Option Preview) → Silent (expose_again s v)
  expose_again-Silent none = Silent-pure tt
  expose_again-Silent (some v) = search silent_rules

  pub undo_expose-Silent : (plan : Plan) → Silent (undo_expose s plan)
  unfolding undo_expose
  undo_expose-Silent plan = search (silent_rules, expose_again-Silent)

  pub undo_all-Silent : (plan : Plan) (v : Option Preview) → Silent (undo_all s plan v)
  unfolding undo_all
  undo_all-Silent plan v = search (silent_rules, expose_again-Silent)

  pub wait_unless-Silent : (b : Bool) (cfg : Resolved) → Silent (wait_unless s b cfg)
  wait_unless-Silent true cfg = Silent-pure tt
  wait_unless-Silent false cfg = Silent-wait s _

abbrev pub Succeeds : {A : Type 0} → M A → Type 0
Succeeds {A} m = (w : World) → (a : A) × ((m w).0 ≡ ok a)

module _ (s : Service) where
  pub remove_moved-Silent : (plan : Plan) (v : Option Preview) → Silent (remove_moved s plan v)
  remove_moved-Silent plan none = Silent-pure tt
  remove_moved-Silent plan (some v) =
      Silent-or_undo _ _ _ (Silent-remove s _) (undo_all-Silent s plan (some v))

  pub forget_then :
      {A : Type 0} (v : Option Preview) (a : A) → Succeeds (forget_logs s v >>= λ _. pure a)
  unfolding remove_logs
  forget_then none a w = (a, refl)
  forget_then (some v) a w = (a, refl)

  execute_up-Atomic : (plan : Plan) → Atomic (execute_up s plan)
  unfolding execute_up
  execute_up-Atomic plan = Atomic-bind _ _ (Silent-apply s _) λ _.
      Atomic-bind _ _ (Silent-or_undo _ _ _ (Silent-expose s _ _) (undo_expose-Silent s plan)) λ _.
        Atomic-bind _ _ (Silent-or_undo _ _ _ (Silent-verify s _ _) (undo_all-Silent s plan _))
          λ report. Atomic-bind _ _ (remove_moved-Silent plan _) λ _.
            Atomic-then _ _ (Atomic-or_undo _ _ _ (Atomic-save s _) (undo_all-Silent s plan _))
              λ _. forget_then plan.choice.evicted _

  up_locked-Atomic : (request : UpRequest) (reg : Registry) → Atomic (up_locked s request reg)
  unfolding up_locked
  up_locked-Atomic request reg = Atomic-bind _ _ (plan_up-Silent s request reg) execute_up-Atomic

  pub up-Atomic : (request : UpRequest) → Atomic (up s request)
  unfolding up
  up-Atomic request = Atomic-bind _ _ (require-Silent s _ _) λ _.
      Atomic-bind _ _ (Silent-lift _) λ _.
        Atomic-bind _ _ (wait_unless-Silent s request.skip_health _)
          λ _. Atomic-with_registry s _ (up_locked-Atomic (with_health request))

-- ===== src/Service/Command/Valid.antt =====
-- Every command keeps the registry file valid.
use tailpreview.Base.{ℕ, refl, Option, none, some}
use tailpreview.Base.Strings.{Text}
use tailpreview.Model.{Preview, Registry}
use tailpreview.Host.{Service}
use tailpreview.Host.Keeps.{
  Silent, Silent-pure, Silent-lift, Silent-bind, Silent-now, Silent-ask, Silent-tailscale_status,
  Silent-verify, Silent-apply, Silent-expose, Silent-remove_logs,
}
use tailpreview.Host.Invariant.{
  Keeps, Any, Keeps-Silent, Keeps-Any, Keeps-pure, Keeps-bind, Keeps-step, Keeps-save,
  Keeps-with_registry,
}
use tailpreview.Service.Undo.{Silent-or_undo, Keeps-or_undo}
use tailpreview.Service.Atomic.{
  require-Silent, choose_port-Silent, undo_expose-Silent, undo_all-Silent, remove_moved-Silent,
  wait_unless-Silent,
}
use tailpreview.Service.Port.{choose_port}
use tailpreview.Service.Up.{
  UpRequest, Plan, plan_up, execute_up, up_locked, up, make_preview, with_health, forget_logs,
}
use tailpreview.Service.Valid.{IsValid}
use tailpreview.Service.Valid.Choice.{Chosen, choose_port-Chosen}
use tailpreview.Service.Valid.Updates.{
  IsSound, refresh_usage-IsValid, prune_reservations-IsValid, saved_registry-IsValid,
}

module _ (s : Service) where
  abbrev Valid : Registry → Type 0
  Valid = IsValid s

  choose_port-Keeps :
      (reg : Registry) (id : Text) (requested : ℕ)
      → Valid reg
      → Keeps Valid (Chosen s reg.previews id) (choose_port s reg id requested)
  choose_port-Keeps reg id requested v =
      Keeps-Silent Valid _ _ (choose_port-Silent s reg id requested)
        (λ w c e. choose_port-Chosen s reg id requested w c v e)

  plan_up-Sound :
      (request : UpRequest) (reg : Registry)
      → Valid reg
      → Keeps Valid (IsSound s) (plan_up s request reg)
  unfolding plan_up make_preview
  plan_up-Sound request loaded v = Keeps-step Valid (IsSound s) _ _ (Silent-now s) λ time.
      Keeps-step Valid (IsSound s) _ _ (Silent-ask _) λ log_time.
        let valid =
          prune_reservations-IsValid s time _ (refresh_usage-IsValid s log_time time loaded v) in
        Keeps-step Valid (IsSound s) _ _ (Silent-tailscale_status s) λ status.
          Keeps-step Valid (IsSound s) _ _ (require-Silent s _ _) λ _.
            Keeps-step Valid (IsSound s) _ _ (Silent-lift _) λ name.
              Keeps-bind Valid _ (IsSound s) _ _ (choose_port-Keeps _ _ request.port valid)
                λ choice c. Keeps-pure Valid (IsSound s) _ (record {
                  registry_valid = valid;
                  chosen = c;
                  port_matches = refl;
                  gateway_matches = refl;
                })

  forget_logs-Silent : (v : Option Preview) → Silent (forget_logs s v)
  forget_logs-Silent none = Silent-pure tt
  forget_logs-Silent (some v) = Silent-remove_logs s v.id

  execute_up-Keeps : (plan : Plan) → IsSound s plan → Keeps Valid Any (execute_up s plan)
  unfolding execute_up
  execute_up-Keeps plan h = Keeps-step Valid Any _ _ (Silent-apply s _) λ _.
      Keeps-step Valid Any _ _
        (Silent-or_undo _ _ _ (Silent-expose s _ _) (undo_expose-Silent s plan))
        λ _.
          Keeps-step Valid Any _ _
            (Silent-or_undo _ _ _ (Silent-verify s _ _) (undo_all-Silent s plan _))
            λ report. Keeps-step Valid Any _ _ (remove_moved-Silent s plan _) λ _.
              Keeps-bind Valid Any Any _ _
                (Keeps-or_undo Valid Any _ _ _ (undo_all-Silent s plan _)
                  (Keeps-save s Valid _ (saved_registry-IsValid s plan h report)))
                λ _ _.
                  Keeps-Any Valid _ (Silent-bind _ _ (forget_logs-Silent _) (λ _. Silent-pure _))

  up_locked-Keeps :
      (request : UpRequest) (reg : Registry) → Valid reg → Keeps Valid Any (up_locked s request reg)
  unfolding up_locked
  up_locked-Keeps request reg v =
      Keeps-bind Valid (IsSound s) Any _ _ (plan_up-Sound request reg v) execute_up-Keeps

  pub up-Keeps : (request : UpRequest) → Keeps Valid Any (up s request)
  unfolding up
  up-Keeps request = Keeps-step Valid Any _ _ (require-Silent s _ _) λ _.
      Keeps-step Valid Any _ _ (Silent-lift _) λ _.
        Keeps-step Valid Any _ _ (wait_unless-Silent s request.skip_health _)
          λ _. Keeps-with_registry s Valid Any _ (up_locked-Keeps (with_health request))

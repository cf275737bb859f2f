-- ===== src/Service/Command/Sweep.antt =====
-- The garbage collector keeps the registry file valid.
use mathlib.Core.List.{append-nil, append_assoc}
use tailpreview.Base.{
  ℕ, ◌≡◌, refl, sym, subst, Bool, true, false, Option, none, some, List, [], ◌∷◌, ◌++◌,
}
use tailpreview.Base.Lists.{All}
use tailpreview.Base.Strings.{Text}
use tailpreview.Model.{Preview, Registry}
use tailpreview.Host.{Service}
use tailpreview.Host.Keeps.{
  Silent-bind, Silent-pure, Silent-now, Silent-ask, Silent-check_once, Silent-apply,
  Silent-active_requests,
}
use tailpreview.Host.Invariant.{
  Keeps, Any, Keeps-Any, Keeps-pure, Keeps-bind, Keeps-step, Keeps-save,
}
use tailpreview.Service.Undo.{Keeps-or_undo}
use tailpreview.Service.Gc.{
  Sweep, sweep, sweep_one, mark_health, is_garbage, collect, finish_quiet, finish_removal, finish,
}
use tailpreview.Service.Valid.{Unique, Placed, Reserved, IsValid}
use tailpreview.Service.Valid.Lists.{
  SameKeys, Unique-replace, Unique-drop, All-drop, All-swap, All-middle,
}
use tailpreview.Service.Valid.Updates.{
  refresh_usage-IsValid, prune_reservations-IsValid, reserve-Reserved, Placed-keys,
}
use tailpreview.Service.Command.Atomic.{undo_gc-Silent, remove_all-Silent, remove_all_logs-Silent}

pub mark_health-SameKeys :
    (now : ℕ) (e : Option Text) (p : Preview) → SameKeys p (mark_health now e p)
unfolding mark_health
mark_health-SameKeys now none p = (refl, refl, refl)
mark_health-SameKeys now (some e) p = (refl, refl, refl)

module _ (s : Service) where
  abbrev Valid : Registry → Type 0
  Valid = IsValid s

  -- What holds of the loop's variables while `ps` is still to come.
  record SweepValid (ps : List Preview) (sw : Sweep) : Type 0 where
    unique : Unique (sw.kept ++ ps)
    placed : All (Placed s) (sw.kept ++ ps)
    reserved : All (Reserved s) sw.reservations

  module _ (now : ℕ) (active : List (Text × ℕ)) where
    swept :
        (p : Preview) (ps : List Preview) (acc : Sweep) (b : Bool)
        → is_garbage s now active p ≡ b
        → SweepValid (p ∷ ps) acc
        → SweepValid ps (sweep_one s now active p acc)
    unfolding sweep_one
    swept p ps acc true e v = rw e (record {
      unique = Unique-drop p ps acc.kept v.unique;
      placed = All-drop (Placed s) p ps acc.kept v.placed;
      reserved =
          reserve-Reserved s p.id _ acc.reservations
            (All-middle (Placed s) p ps acc.kept v.placed).0 v.reserved;
    })
    swept p ps acc false e v = rw e (record {
      unique = subst Unique (sym (append_assoc acc.kept (p ∷ []) ps)) v.unique;
      placed = subst (All (Placed s)) (sym (append_assoc acc.kept (p ∷ []) ps)) v.placed;
      reserved = v.reserved;
    })

    marked :
        (e : Option Text) (p : Preview) (ps : List Preview) (acc : Sweep)
        → SweepValid (p ∷ ps) acc
        → SweepValid (mark_health now e p ∷ ps) acc
    marked e p ps acc v =
        let k = mark_health-SameKeys now e p in
        record {
          unique = Unique-replace p (mark_health now e p) k ps acc.kept v.unique;
          placed =
              All-swap (Placed s) p ps _ acc.kept
                (Placed-keys s p (mark_health now e p) k
                  (All-middle (Placed s) p ps acc.kept v.placed))
                v.placed;
          reserved = v.reserved;
        }

    sweep-Keeps :
        (ps : List Preview) (acc : Sweep)
        → SweepValid ps acc
        → Keeps Valid (SweepValid []) (sweep s now active ps acc)
    unfolding sweep
    sweep-Keeps [] acc v = Keeps-pure Valid (SweepValid []) acc v
    sweep-Keeps (p ∷ ps) acc v =
        Keeps-step Valid (SweepValid []) _ _ (Silent-check_once s _) λ health.
          sweep-Keeps ps (sweep_one s now active (mark_health now health p) acc)
            (swept (mark_health now health p) ps acc _ refl (marked health p ps acc v))

  swept_registry-IsValid :
      (reg : Registry) (sw : Sweep)
      → Valid reg
      → SweepValid [] sw
      → Valid (record reg { previews = sw.kept; reservations = sw.reservations })
  swept_registry-IsValid reg sw v h = record {
    version_supported = v.version_supported;
    unique = subst Unique (append-nil sw.kept) h.unique;
    placed = subst (All (Placed s)) (append-nil sw.kept) h.placed;
    reserved = h.reserved;
  }

  finish-Keeps :
      (time : ℕ) (reg : Registry) (sw : Sweep) (removed : List Preview)
      → Valid reg
      → SweepValid [] sw
      → Keeps Valid Any (finish s time reg sw removed)
  unfolding finish_quiet finish_removal
  finish-Keeps time reg sw [] v h = Keeps-step Valid Any _ _ (Silent-apply s _) λ _.
      Keeps-bind Valid Any Any _ _ (Keeps-save s Valid _ (swept_registry-IsValid reg sw v h))
        λ _ _. Keeps-pure Valid Any _ tt
  finish-Keeps time reg sw (p ∷ ps) v h = Keeps-step Valid Any _ _ (Silent-apply s _) λ _.
      Keeps-step Valid Any _ _ (remove_all-Silent s _ sw.removed (undo_gc-Silent s _ _)) λ _.
        Keeps-bind Valid Any Any _ _
          (Keeps-or_undo Valid Any _ _ _ (undo_gc-Silent s _ _) (
            Keeps-save s Valid _
              (prune_reservations-IsValid s time _ (swept_registry-IsValid reg sw v h))))
          λ _ _.
            Keeps-Any Valid _
              (Silent-bind _ _ (remove_all_logs-Silent s sw.removed) (λ _. Silent-pure _))

  pub collect-Keeps : (reg : Registry) → Valid reg → Keeps Valid Any (collect s reg)
  unfolding collect
  collect-Keeps loaded v = Keeps-step Valid Any _ _ (Silent-now s) λ time.
      Keeps-step Valid Any _ _ (Silent-ask _) λ log_time.
        let r = refresh_usage-IsValid s log_time time loaded v in
        Keeps-step Valid Any _ _ (Silent-active_requests s) λ active.
          Keeps-bind Valid (SweepValid []) Any _ _
            (sweep-Keeps time active _ _
              (record { unique = r.unique; placed = r.placed; reserved = r.reserved }))
            λ sw h. finish-Keeps time _ sw sw.removed r h

-- ===== src/Service/Collected.antt =====
-- What a run of GC removes and keeps.
use mathlib.Core.List.{Perm, append-nil}
use mathlib.Core.List.Perm
use tailpreview.Base.{
  ℕ, ◌≡◌, refl, ap, sym, ◌∙◌, subst, Option, none, some, List, [], ◌∷◌, ◌++◌, map, arith,
}
use tailpreview.Base.Lists.{All}
use tailpreview.Base.Strings.{Text}
use tailpreview.Base.Outcome.{Outcome, ok, err}
use tailpreview.Model.{Preview, Registry}
use tailpreview.Errors.{Error}
use tailpreview.Host.{Service, World}
use tailpreview.Host.Monad.{M, pure, ◌>>=◌}
use tailpreview.Host.Calls.{now, ask, active_requests, apply, save}
use tailpreview.Service.Usage.{refresh_usage, prune_reservations, used_at}
use tailpreview.Service.Up.{or_undo, same_error}
use tailpreview.Service.Down.{ActionResult}
use tailpreview.Service.Gc.{
  Sweep, sweep, collect, finish_quiet, finish_removal, finish, undo_gc, remove_all, remove_all_logs,
}
use tailpreview.Service.Eviction.{active_now}
use tailpreview.Service.Command.Atomic.{remove_all_logs-Silent}
use tailpreview.Host.Ends.{Ends, continue_ends, Ends-then, Ends-bind}
use tailpreview.Service.Swept.{ids, IsGarbage, IsSwept, sweep-IsSwept}

-- The result and the registry file show what was collected.
abbrev Shows : Sweep → ActionResult → World → Type 0
Shows sw r w = (r.removed ≡ sw.removed) × (w.disk.previews ≡ sw.kept)

module _ (s : Service) (time : ℕ) where
  finish_quiet-Shows :
      (reg : Registry) (sw : Sweep) (w w' : World) (r : ActionResult)
      → sw.removed ≡ []
      → finish_quiet s reg sw w ≡ (ok r, w')
      → Shows sw r w'
  unfolding finish_quiet apply save
  finish_quiet-Shows reg sw w w' r n h = (ground arith, ground arith)

  save_or_undo :
      (reg : Registry) (undo : M (Unit {0}))
      → Ends (λ _ w'. w'.disk ≡ reg) (or_undo (save s reg) undo same_error)
  unfolding save
  save_or_undo reg undo = record { at = λ w w' a h. ground arith }

  forget_all-Shows :
      (sw : Sweep) (r0 : ActionResult) (w w' : World) (r : ActionResult)
      → r0.removed ≡ sw.removed
      → w.disk.previews ≡ sw.kept
      → (remove_all_logs s sw.removed >>= λ _. pure r0) w ≡ (ok r, w')
      → Shows sw r w'
  forget_all-Shows sw r0 w w' r n k h =
      continue_ends (Shows sw) (λ _ v. v.disk.previews ≡ sw.kept) (remove_all_logs s sw.removed w)
        (λ _. pure r0) w' r
        (λ a v e.
          ap (λ x. x.1.disk.previews) (sym e)
          ∙ ap (λ x. x.previews) ((remove_all_logs-Silent s sw.removed).at w)
          ∙ k)
        (λ a v v' c d e. (
          ap (λ x. elim x.0 [ ok y ↦ y.removed | err _ ↦ [] ]) (sym e) ∙ n,
          ap (λ x. x.1.disk.previews) (sym e) ∙ d,
        ))
        h

  finish_removal-Shows :
      (reg : Registry) (sw : Sweep) → Ends (Shows sw) (finish_removal s time reg sw)
  unfolding finish_removal prune_reservations
  finish_removal-Shows reg sw =
      let undo = undo_gc s reg.previews sw.removed in
      Ends-bind (Shows sw) (apply s sw.kept) _ λ _.
        Ends-bind (Shows sw) (remove_all s undo sw.removed) _ λ _.
          Ends-then (Shows sw) _ _ _
            (save_or_undo
              (prune_reservations time
                (record reg { previews = sw.kept; reservations = sw.reservations }))
              undo)
            λ a v v' c d. forget_all-Shows sw _ v v' c refl (ap (λ x. x.previews) d)

  finish-Shows : (reg : Registry) (sw : Sweep) → Ends (Shows sw) (finish s time reg sw sw.removed)
  finish-Shows reg sw = by_list sw.removed refl
    where
      by_list : (l : List Preview) → sw.removed ≡ l → Ends (Shows sw) (finish s time reg sw l)
      by_list [] n = record { at = λ w w' r h. finish_quiet-Shows reg sw w w' r n h }
      by_list (p ∷ ps) n = finish_removal-Shows reg sw

-- What GC did, seen on the loaded registry, the result and the registry file.
pub record IsCollected (s : Service) (time : ℕ) (active : List (Text × ℕ)) (loaded : Registry)
    (r : ActionResult) (w : World) : Type 0 where
  pub removed_garbage : All (IsGarbage s time active) r.removed
  pub kept_in_use : All (λ p. IsGarbage s time active p → ⊥) w.disk.previews
  pub all_there : Perm (ids w.disk.previews ++ ids r.removed) (ids loaded.previews)

used_at-id : (time : ℕ) (o : Option ℕ) (p : Preview) → (used_at time o p).id ≡ p.id
unfolding used_at
used_at-id time none p = refl
used_at-id time (some t) p = ground arith

refresh_usage-ids :
    (f : Text → Option ℕ) (time : ℕ) (ps : List Preview)
    → ids (map (λ p. used_at time (f p.id) p) ps) ≡ ids ps
refresh_usage-ids f time [] = refl
refresh_usage-ids f time (p ∷ ps) =
    rw (used_at-id time (f p.id) p) (ap (◌∷◌ p.id) (refresh_usage-ids f time ps))

shown :
    (s : Service) (time : ℕ) (active : List (Text × ℕ)) (loaded : Registry) (sw : Sweep)
    (r : ActionResult) (w : World)
    → IsSwept s time active sw (ids loaded.previews)
    → Shows sw r w
    → IsCollected s time active loaded r w
shown s time active loaded sw r w v (removed, kept) = record {
  removed_garbage = rw removed v.removed_garbage;
  kept_in_use = rw kept v.kept_in_use;
  all_there = rw removed (rw kept v.all_there);
}

-- If GC succeeds, then with the time and the request counts that it read, every removed preview is
-- garbage (not pinned, without a request, and idle, old or unhealthy for too long) by its state after
-- the health check, no preview that stays in the registry file is, and the two together are the
-- registered previews, each once.
pub collect-IsCollected :
    (s : Service) (loaded : Registry) (w w' : World) (r : ActionResult)
    → collect s loaded w ≡ (ok r, w')
    → IsCollected s (s.host.now w.history) (active_now s w) loaded r w'
unfolding collect now ask active_requests refresh_usage
collect-IsCollected s loaded w w' r h =
    let ps = map (λ p. used_at time (s.host.log_time w.history p.id) p) loaded.previews in
    let reg : Registry = record loaded { previews = ps } in
    let w1 = (active_requests s w).1 in
    let start : Sweep = record { kept = []; removed = []; reservations = loaded.reservations } in
    let (sw, ran, swept) =
      sweep-IsSwept s time active ps start [] w1
        (record { removed_garbage = tt; kept_in_use = tt; all_there = Perm.rfl }) in
    let listed : ids ps ++ [] ≡ ids loaded.previews =
      append-nil (ids ps) ∙ refresh_usage-ids (s.host.log_time w.history) time loaded.previews in
    continue_ends (IsCollected s time active loaded) (λ sw1 _. sw1 ≡ sw)
      (sweep s time active ps start w1) (λ sw1. finish s time reg sw1 sw1.removed) w' r
      (λ a v e. same a v sw ran e)
      (λ a v v' c eq e.
        shown s time active loaded a c v'
          (subst (λ x. IsSwept s time active x (ids loaded.previews)) (sym eq)
            (subst (IsSwept s time active sw) listed swept))
          ((finish-Shows s time reg a).at v v' c e))
      h
  where
    time : ℕ
    time = s.host.now w.history

    active : List (Text × ℕ)
    active = active_now s w

    same :
        {x : Outcome Error Sweep × World} (a : Sweep) (v : World) (sw : Sweep)
        → x.0 ≡ ok sw
        → x ≡ (ok a, v)
        → a ≡ sw
    same a v sw ran e = cc (ran, ap (λ y. y.0) e)

-- ===== src/Service/Gc.antt =====
-- Service.GC: expired previews that serve no request are removed, and their ports are reserved.
use tailpreview.Base.{
  ℕ, Bool, false, not, ◌&&◌, ◌||◌, Option, none, some, List, [], ◌∷◌, ◌++◌, if◌then◌else◌,
}
use tailpreview.Base.Strings.{Text}
use tailpreview.Model.{Preview, PortReservation, Registry}
use tailpreview.Host.{Service}
use tailpreview.Host.Monad.{M, pure, attempt, ◌>>=◌, ◌>>◌}
use tailpreview.Host.Calls.{
  now, ask, check_once, active_requests, expose, remove, apply, remove_logs, save, with_registry,
}
use tailpreview.Service.Select.{preview_has_active_requests}
use tailpreview.Service.Usage.{elapsed, unhealthy_grace, refresh_usage, prune_reservations, reserve}
use tailpreview.Service.Up.{or_undo, same_error}
use tailpreview.Service.Down.{ActionResult}

abbrev pub since : ℕ → Option ℕ → Option ℕ
since now none = some now
since now (some t) = some t

-- The status of a preview after its health check.
unfoldable pub mark_health : ℕ → Option Text → Preview → Preview
mark_health now none p = record p {
  status = "active";
  unhealthy_since = none;
  last_health_error = [];
}
mark_health now (some e) p = record p {
  status = "unhealthy";
  unhealthy_since = since now p.unhealthy_since;
  last_health_error = e;
}

unfoldable pub is_expired : ℕ → Preview → Bool
is_expired now p =
    not p.pinned && (elapsed now p.last_used_at p.idle_ttl || elapsed now p.created_at p.max_age)

abbrev pub unhealthy_for : ℕ → Option ℕ → Bool
unhealthy_for now none = false
unhealthy_for now (some t) = elapsed now t unhealthy_grace

unfoldable pub is_unhealthy_expired : ℕ → Preview → Bool
is_unhealthy_expired now p = not p.pinned && unhealthy_for now p.unhealthy_since

unfoldable pub is_garbage : Service → ℕ → List (Text × ℕ) → Preview → Bool
unfolding is_expired is_unhealthy_expired
is_garbage s now active p =
    (is_expired now p || is_unhealthy_expired now p)
    && not (preview_has_active_requests s.net p active)

-- `kept`, `removed` and the map of reservations, as the loop fills them.
pub record Sweep : Type 0 where
  pub kept : List Preview
  pub removed : List Preview
  pub reservations : List (Text × PortReservation)

unfoldable pub sweep_one : Service → ℕ → List (Text × ℕ) → Preview → Sweep → Sweep
sweep_one s now active p acc =
    if is_garbage s now active p
    then record acc {
      removed = acc.removed ++ p ∷ [];
      reservations =
          reserve p.id (record { port = p.external_port; last_seen = now }) acc.reservations;
    }
    else record acc { kept = acc.kept ++ p ∷ [] }

unfoldable pub sweep : Service → ℕ → List (Text × ℕ) → List Preview → Sweep → M Sweep
sweep s now active [] acc = pure acc
sweep s now active (p ∷ ps) acc = do
  health ← check_once s p.health
  sweep s now active ps (sweep_one s now active (mark_health now health p) acc)

-- The loop that exposes every removed preview again.
unfoldable pub expose_all : Service → List Preview → M (Unit {0})
expose_all s [] = pure tt
expose_all s (p ∷ ps) = do attempt (expose s p.external_port p.gateway_port); expose_all s ps

unfoldable pub undo_gc : Service → List Preview → List Preview → M (Unit {0})
undo_gc s old removed = do attempt (apply s old); expose_all s removed

unfoldable pub remove_all : Service → M (Unit {0}) → List Preview → M (Unit {0})
remove_all s undo [] = pure tt
remove_all s undo (p ∷ ps) = do
  or_undo (remove s p.external_port) undo same_error
  remove_all s undo ps

unfoldable pub remove_all_logs : Service → List Preview → M (Unit {0})
remove_all_logs s [] = pure tt
remove_all_logs s (p ∷ ps) = do remove_logs s p.id; remove_all_logs s ps

-- Nothing is removed: the health of every preview is saved.
unfoldable pub finish_quiet : Service → Registry → Sweep → M ActionResult
finish_quiet s reg sw = do
  apply s sw.kept
  save s (record reg { previews = sw.kept; reservations = sw.reservations })
  pure (record { action = "gc"; preview = none; removed = [] })

unfoldable pub finish_removal : Service → ℕ → Registry → Sweep → M ActionResult
finish_removal s time reg sw = do
  apply s sw.kept
  remove_all s (undo_gc s reg.previews sw.removed) sw.removed
  or_undo
      (save s (
        prune_reservations time
          (record reg { previews = sw.kept; reservations = sw.reservations })))
      (undo_gc s reg.previews sw.removed) same_error
  remove_all_logs s sw.removed
  pure (record { action = "gc"; preview = none; removed = sw.removed })

abbrev pub finish : Service → ℕ → Registry → Sweep → List Preview → M ActionResult
finish s time reg sw [] = finish_quiet s reg sw
finish s time reg sw (_ ∷ _) = finish_removal s time reg sw

unfoldable pub collect : Service → Registry → M ActionResult
collect s loaded = do
  time ← now s
  log_time ← ask s.host.log_time
  let reg = refresh_usage log_time time loaded
  active ← active_requests s
  sw ←
      sweep s time active reg.previews
        (record { kept = []; removed = []; reservations = reg.reservations })
  finish s time reg sw sw.removed

unfoldable pub gc : Service → M ActionResult
gc s = with_registry s (collect s)

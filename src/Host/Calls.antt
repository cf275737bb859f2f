-- ===== src/Host/Calls.antt =====
-- One action for each call of a collaborator: it records the call with its outcome.
use tailpreview.Base.{ℕ, Bool, true, false, Option, none, some, List, [], ◌∷◌}
use tailpreview.Base.Strings.{Text}
use tailpreview.Base.Outcome.{Outcome, ok, err}
use tailpreview.Model.{HealthCheck, VerificationCheck, VerificationReport, Preview, Registry}
use tailpreview.Host.{
  Event, History, Service, Status, locked, loaded, unlocked, waited, checked, status_read, probed,
  funnel_read, exposed, removed, applied, active_read, verified, saved, logs_removed,
}
use tailpreview.Errors.{Error, external}
use tailpreview.Host.Monad.{M, ◌>>=◌, ◌>>◌, finally}

-- An error-only answer, and whether it is nil.
abbrev pub succeeded : Option Text → Bool
succeeded none = true
succeeded (some _) = false

abbrev pub outcome_of : Option Text → Outcome Error (Unit {0})
outcome_of none = ok tt
outcome_of (some e) = err (external e)

abbrev pub as_error : {A : Type 0} → Outcome Text A → Outcome Error A
as_error (ok a) = ok a
as_error (err e) = err (external e)

abbrev pub read_file : Option Text → Registry → Outcome Error Registry
read_file none reg = ok reg
read_file (some e) reg = err (external e)

abbrev pub write_file : Option Text → Registry → Registry → Registry
write_file none new old = new
write_file (some e) new old = old

abbrev pub is_ok : {E A : Type 0} → Outcome E A → Bool
is_ok (ok _) = true
is_ok (err _) = false

-- The call is over: it is added to the history, and the registry file is as it was.
abbrev pub record_call : {A : Type 0} → Event → Outcome Error A → M A
record_call e r w = (r, record w { history = e ∷ w.history })

-- s.now() and os.Stat of a preview's log change nothing and are not recorded.
unfoldable pub now : Service → M ℕ
now s w = (ok (s.host.now w.history), w)

unfoldable pub ask : {A : Type 0} → (History → A) → M A
ask f w = (ok (f w.history), w)

module _ (s : Service) where
  unfoldable pub wait : List HealthCheck → M (Unit {0})
  wait checks w =
      let r = s.host.wait w.history checks in
      record_call (waited checks (succeeded r)) (outcome_of r) w

  unfoldable pub check_once : List HealthCheck → M (Option Text)
  check_once checks w =
      let r = s.host.check_once w.history checks in
      record_call (checked checks (succeeded r)) (ok r) w

  unfoldable pub tailscale_status : M Status
  tailscale_status w = let r = s.host.status w.history in record_call (status_read r) (as_error r) w

  unfoldable pub port_available : ℕ → M Bool
  port_available p w =
      let r = s.host.port_available w.history p in record_call (probed p r) (as_error r) w

  unfoldable pub funnel_enabled_on_port : ℕ → M Bool
  funnel_enabled_on_port p w =
      let r = s.host.funnel_on_port w.history p in record_call (funnel_read p r) (as_error r) w

  unfoldable pub expose : ℕ → ℕ → M (Unit {0})
  expose p g w =
      let r = s.host.expose w.history p g in
      record_call (exposed p g (succeeded r)) (outcome_of r) w

  unfoldable pub remove : ℕ → M (Unit {0})
  remove p w =
      let r = s.host.remove w.history p in record_call (removed p (succeeded r)) (outcome_of r) w

  unfoldable pub apply : List Preview → M (Unit {0})
  apply ps w =
      let r = s.host.apply w.history ps in record_call (applied ps (succeeded r)) (outcome_of r) w

  -- `active, _ := s.Caddy.ActiveRequests(ctx)`: on an error the map is nil, which reads as empty.
  unfoldable pub active_requests : M (List (Text × ℕ))
  active_requests w =
      let r = s.host.active_requests w.history in
      record_call (active_read (is_ok r)) (ok (elim r [ ok m ↦ m | err _ ↦ [] ])) w

  unfoldable pub verify : Text → List VerificationCheck → M VerificationReport
  verify url checks w =
      let r = s.host.verify w.history url checks in record_call (verified url checks (is_ok r)) r w

  unfoldable pub remove_logs : Text → M (Unit {0})
  remove_logs id = record_call (logs_removed id) (ok tt)

  -- Locked.Save of state/store.go: the file is replaced by a rename or left as it was.
  unfoldable pub save : Registry → M (Unit {0})
  save reg w =
      let r = s.host.save w.history reg in
      (
        outcome_of r,
        record { disk = write_file r reg w.disk; history = saved reg (succeeded r) ∷ w.history },
      )

  -- Store.Lock, Locked.Load, and Locked.Close, which is deferred.
  unfoldable pub lock : M (Unit {0})
  lock w = let r = s.host.lock w.history in record_call (locked (succeeded r)) (outcome_of r) w

  unfoldable pub load : M Registry
  load w =
      let r = s.host.load w.history in record_call (loaded (succeeded r)) (read_file r w.disk) w

  unfoldable pub close : M (Unit {0})
  close = record_call unlocked (ok tt)

  -- What stands between `lockRegistry` and the end of a method. The lock is given back on every
  -- path, an error of Load included.
  unfoldable pub with_registry : {A : Type 0} → (Registry → M A) → M A
  unfolding lock load close
  with_registry body = do lock; finally (load >>= body) close

-- ===== src/Host/Keeps.antt =====
-- Rules for what an action does to the registry file: nothing (`Silent`), or nothing if it fails
-- (`Atomic`).
use tailpreview.Base.{ℕ, Bool, true, false, List, ◌≡◌, refl, ◌∙◌, arith, if◌then◌else◌}
use tailpreview.Base.Strings.{Text}
use tailpreview.Base.Outcome.{Outcome, ok, err}
use tailpreview.Model.{Preview, Registry, HealthCheck, VerificationCheck}
use tailpreview.Errors.{Error}
use tailpreview.Host.{Event, History, Service, World}
use tailpreview.Host.Monad.{M, pure, fail, lift, continue, attempt, finally, ◌>>=◌}
use tailpreview.Host.Calls.{
  now, ask, wait, check_once, tailscale_status, port_available, funnel_enabled_on_port, expose,
  remove, apply, active_requests, verify, remove_logs, save, lock, load, close, with_registry,
  record_call,
}

pub record Silent {A : Type 0} (m : M A) : Type 0 where
  pub at : (w : World) → (m w).1.disk ≡ w.disk

pub record Atomic {A : Type 0} (m : M A) : Type 0 where
  pub at : (w : World) (e : Error) → (m w).0 ≡ err e → (m w).1.disk ≡ w.disk

module _ {A B : Type 0} where
  continue-Silent :
      (r : Outcome Error A) (f : A → M B) (w : World)
      → ((a : A) → Silent (f a))
      → (continue r f w).1.disk ≡ w.disk
  continue-Silent (ok a) f w k = (k a).at w
  continue-Silent (err e) f w k = refl

  pub Silent-bind : (m : M A) (f : A → M B) → Silent m → ((a : A) → Silent (f a)) → Silent (m >>= f)
  Silent-bind m f h k = record { at = λ w. continue-Silent (m w).0 f (m w).1 k ∙ h.at w }

  continue-Atomic :
      (r : Outcome Error A) (f : A → M B) (w w' : World) (e : Error)
      → w'.disk ≡ w.disk
      → ((a : A) → Atomic (f a))
      → (continue r f w').0 ≡ err e
      → (continue r f w').1.disk ≡ w.disk
  continue-Atomic (ok a) f w w' e p k h = (k a).at w' e h ∙ p
  continue-Atomic (err x) f w w' e p k h = p

  -- An action that leaves the file alone, then an atomic one.
  pub Atomic-bind : (m : M A) (f : A → M B) → Silent m → ((a : A) → Atomic (f a)) → Atomic (m >>= f)
  Atomic-bind m f h k = record { at = λ w e. continue-Atomic (m w).0 f w (m w).1 e (h.at w) k }

  then-Atomic :
      (r : Outcome Error A) (f : A → M B) (w w' : World) (e : Error)
      → ((x : Error) → r ≡ err x → w'.disk ≡ w.disk)
      → ((a : A) (v : World) → (b : B) × ((f a v).0 ≡ ok b))
      → (continue r f w').0 ≡ err e
      → (continue r f w').1.disk ≡ w.disk
  then-Atomic (ok a) f w w' e p k h = absurd (cc (k a w').1)
  then-Atomic (err x) f w w' e p k h = p x refl

  -- An atomic action, then one that never fails.
  pub Atomic-then :
      (m : M A) (f : A → M B)
      → Atomic m
      → ((a : A) (v : World) → (b : B) × ((f a v).0 ≡ ok b))
      → Atomic (m >>= f)
  Atomic-then m f h k = record { at = λ w e. then-Atomic (m w).0 f w (m w).1 e (h.at w) k }

module _ {A : Type 0} where
  pub Silent-pure : (a : A) → Silent (pure a)
  Silent-pure a = record { at = λ w. refl }

  pub Silent-fail : (e : Error) → Silent (fail {A = A} e)
  Silent-fail e = record { at = λ w. refl }

  pub Silent-lift : (r : Outcome Error A) → Silent (lift r)
  Silent-lift r = record { at = λ w. refl }

  pub Silent-call : (e : Event) (r : Outcome Error A) → Silent (record_call e r)
  Silent-call e r = record { at = λ w. refl }

  pub Silent-ask : (f : History → A) → Silent (ask f)
  unfolding ask
  Silent-ask f = record { at = λ w. refl }

  pub Silent-attempt : (m : M A) → Silent m → Silent (attempt m)
  Silent-attempt m h = record { at = h.at }

  pub Silent-if : (b : Bool) (m n : M A) → Silent m → Silent n → Silent (if b then m else n)
  Silent-if true m n h k = h
  Silent-if false m n h k = k

  pub Atomic-finally : (m : M A) (c : M (Unit {0})) → Silent c → Atomic m → Atomic (finally m c)
  Atomic-finally m c k h = record { at = λ w e p. k.at (m w).1 ∙ h.at w e p }

  pub Silent-Atomic : (m : M A) → Silent m → Atomic m
  Silent-Atomic m h = record { at = λ w e _. h.at w }

-- Every call but `save` leaves the file alone.
module _ (s : Service) where
  pub Silent-now : Silent (now s)
  unfolding now
  Silent-now = record { at = λ w. refl }

  pub Silent-wait : (cs : List HealthCheck) → Silent (wait s cs)
  unfolding wait
  Silent-wait cs = record { at = λ w. refl }

  pub Silent-check_once : (cs : List HealthCheck) → Silent (check_once s cs)
  unfolding check_once
  Silent-check_once cs = record { at = λ w. refl }

  pub Silent-tailscale_status : Silent (tailscale_status s)
  unfolding tailscale_status
  Silent-tailscale_status = record { at = λ w. refl }

  pub Silent-port_available : (p : ℕ) → Silent (port_available s p)
  unfolding port_available
  Silent-port_available p = record { at = λ w. refl }

  pub Silent-funnel : (p : ℕ) → Silent (funnel_enabled_on_port s p)
  unfolding funnel_enabled_on_port
  Silent-funnel p = record { at = λ w. refl }

  pub Silent-expose : (p g : ℕ) → Silent (expose s p g)
  unfolding expose
  Silent-expose p g = record { at = λ w. refl }

  pub Silent-remove : (p : ℕ) → Silent (remove s p)
  unfolding remove
  Silent-remove p = record { at = λ w. refl }

  pub Silent-apply : (ps : List Preview) → Silent (apply s ps)
  unfolding apply
  Silent-apply ps = record { at = λ w. refl }

  pub Silent-active_requests : Silent (active_requests s)
  unfolding active_requests
  Silent-active_requests = record { at = λ w. refl }

  pub Silent-verify : (u : Text) (cs : List VerificationCheck) → Silent (verify s u cs)
  unfolding verify
  Silent-verify u cs = record { at = λ w. refl }

  pub Silent-remove_logs : (id : Text) → Silent (remove_logs s id)
  unfolding remove_logs
  Silent-remove_logs id = record { at = λ w. refl }

  -- A failed save leaves the old file.
  pub Atomic-save : (reg : Registry) → Atomic (save s reg)
  unfolding save
  Atomic-save reg = record { at = λ w e h. ground arith }

  pub Silent-lock : Silent (lock s)
  unfolding lock
  Silent-lock = record { at = λ w. refl }

  pub Silent-load : Silent (load s)
  unfolding load
  Silent-load = record { at = λ w. refl }

  pub Silent-close : Silent (close s)
  unfolding close
  Silent-close = record { at = λ w. refl }

  -- The lock and the deferred Close write nothing.
  pub Atomic-with_registry :
      {A : Type 0} (body : Registry → M A)
      → ((reg : Registry) → Atomic (body reg))
      → Atomic (with_registry s body)
  unfolding with_registry
  Atomic-with_registry body k =
      Atomic-bind (lock s) _ Silent-lock
        λ _. Atomic-finally _ (close s) Silent-close (Atomic-bind (load s) body Silent-load k)

pub ruleset silent_rules = (
  Silent-bind, Silent-pure, Silent-fail, Silent-lift, Silent-call, Silent-ask, Silent-attempt,
  Silent-if, Silent-now, Silent-wait, Silent-check_once, Silent-tailscale_status,
  Silent-port_available, Silent-funnel, Silent-expose, Silent-remove, Silent-apply,
  Silent-active_requests, Silent-verify, Silent-remove_logs,
)

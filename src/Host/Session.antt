-- ===== src/Host/Session.antt =====
-- Rules for which calls an action records: those of work under the lock.
use tailpreview.Base.{ℕ, Bool, true, false, List, ◌∷◌, if◌then◌else◌}
use tailpreview.Base.Strings.{Text}
use tailpreview.Base.Outcome.{Outcome, ok, err}
use tailpreview.Model.{Preview, Registry, HealthCheck, VerificationCheck}
use tailpreview.Errors.{Error}
use tailpreview.Host.{
  Event, History, Service, World, locked, loaded, unlocked, waited, checked, status_read, probed,
  funnel_read, exposed, removed, applied, active_read, verified, saved, logs_removed,
}
use tailpreview.Host.Monad.{M, pure, fail, lift, continue, attempt, ◌>>=◌}
use tailpreview.Host.Calls.{
  now, ask, wait, check_once, tailscale_status, port_available, funnel_enabled_on_port, expose,
  remove, apply, active_requests, verify, remove_logs, save, load,
}

-- The history grew by events with the property.
pub data Extends (P : Event → Type 0) (old : History) : History → Type 0 where
  same : Extends P old old
  more : {e : Event} {h : History} → P e → Extends P old h → Extends P old (e ∷ h)

pub Extends-trans :
    (P : Event → Type 0) (a b c : History) → Extends P a b → Extends P b c → Extends P a c
Extends-trans P a b _ x same = x
Extends-trans P a b _ x (more p y) = more p (Extends-trans P a b _ x y)

-- Any call but those of the lock.
abbrev pub IsWork : Event → Type 0
IsWork (locked b) = ⊥
IsWork unlocked = ⊥
IsWork (loaded b) = Unit
IsWork (active_read b) = Unit
IsWork (waited cs b) = Unit
IsWork (checked cs b) = Unit
IsWork (status_read r) = Unit
IsWork (probed p r) = Unit
IsWork (funnel_read p r) = Unit
IsWork (exposed p g b) = Unit
IsWork (removed p b) = Unit
IsWork (applied ps b) = Unit
IsWork (verified u cs b) = Unit
IsWork (saved reg b) = Unit
IsWork (logs_removed t) = Unit

-- Health checks of services, before the lock.
abbrev pub IsBefore : Event → Type 0
IsBefore (waited cs b) = Unit
IsBefore (locked b) = ⊥
IsBefore unlocked = ⊥
IsBefore (loaded b) = ⊥
IsBefore (active_read b) = ⊥
IsBefore (checked cs b) = ⊥
IsBefore (status_read r) = ⊥
IsBefore (probed p r) = ⊥
IsBefore (funnel_read p r) = ⊥
IsBefore (exposed p g b) = ⊥
IsBefore (removed p b) = ⊥
IsBefore (applied ps b) = ⊥
IsBefore (verified u cs b) = ⊥
IsBefore (saved reg b) = ⊥
IsBefore (logs_removed t) = ⊥

-- An action that records such events.
pub record Records (P : Event → Type 0) {A : Type 0} (m : M A) : Type 0 where
  pub at : (w : World) → Extends P w.history (m w).1.history

module _ (P : Event → Type 0) {A B : Type 0} where
  continue-Records :
      (r : Outcome Error A) (f : A → M B) (w : World)
      → ((a : A) → Records P (f a))
      → Extends P w.history (continue r f w).1.history
  continue-Records (ok a) f w k = (k a).at w
  continue-Records (err e) f w k = same

  pub Records-bind :
      (m : M A) (f : A → M B) → Records P m → ((a : A) → Records P (f a)) → Records P (m >>= f)
  Records-bind m f h k = record {
    at = λ w. Extends-trans P _ _ _ (h.at w) (continue-Records (m w).0 f (m w).1 k);
  }

module _ (P : Event → Type 0) {A : Type 0} where
  pub Records-pure : (a : A) → Records P (pure a)
  Records-pure a = record { at = λ w. same }

  pub Records-fail : (e : Error) → Records P (fail {A = A} e)
  Records-fail e = record { at = λ w. same }

  pub Records-lift : (r : Outcome Error A) → Records P (lift r)
  Records-lift r = record { at = λ w. same }

  pub Records-ask : (f : History → A) → Records P (ask f)
  unfolding ask
  Records-ask f = record { at = λ w. same }

  pub Records-attempt : (m : M A) → Records P m → Records P (attempt m)
  Records-attempt m h = record { at = h.at }

  pub Records-if :
      (b : Bool) (m n : M A) → Records P m → Records P n → Records P (if b then m else n)
  Records-if true m n h k = h
  Records-if false m n h k = k

module _ (s : Service) where
  pub Records-now : (P : Event → Type 0) → Records P (now s)
  unfolding now
  Records-now P = record { at = λ w. same }

  pub Before-wait : (cs : List HealthCheck) → Records IsBefore (wait s cs)
  unfolding wait
  Before-wait cs = record { at = λ w. more tt same }

  pub Work-check_once : (cs : List HealthCheck) → Records IsWork (check_once s cs)
  unfolding check_once
  Work-check_once cs = record { at = λ w. more tt same }

  pub Work-tailscale_status : Records IsWork (tailscale_status s)
  unfolding tailscale_status
  Work-tailscale_status = record { at = λ w. more tt same }

  pub Work-port_available : (p : ℕ) → Records IsWork (port_available s p)
  unfolding port_available
  Work-port_available p = record { at = λ w. more tt same }

  pub Work-funnel : (p : ℕ) → Records IsWork (funnel_enabled_on_port s p)
  unfolding funnel_enabled_on_port
  Work-funnel p = record { at = λ w. more tt same }

  pub Work-expose : (p g : ℕ) → Records IsWork (expose s p g)
  unfolding expose
  Work-expose p g = record { at = λ w. more tt same }

  pub Work-remove : (p : ℕ) → Records IsWork (remove s p)
  unfolding remove
  Work-remove p = record { at = λ w. more tt same }

  pub Work-apply : (ps : List Preview) → Records IsWork (apply s ps)
  unfolding apply
  Work-apply ps = record { at = λ w. more tt same }

  pub Work-active_requests : Records IsWork (active_requests s)
  unfolding active_requests
  Work-active_requests = record { at = λ w. more tt same }

  pub Work-verify : (u : Text) (cs : List VerificationCheck) → Records IsWork (verify s u cs)
  unfolding verify
  Work-verify u cs = record { at = λ w. more tt same }

  pub Work-remove_logs : (id : Text) → Records IsWork (remove_logs s id)
  unfolding remove_logs
  Work-remove_logs id = record { at = λ w. more tt same }

  pub Work-save : (reg : Registry) → Records IsWork (save s reg)
  unfolding save
  Work-save reg = record { at = λ w. more tt same }

  pub Work-load : Records IsWork (load s)
  unfolding load
  Work-load = record { at = λ w. more tt same }

pub ruleset work_rules = (
  Records-bind, Records-pure, Records-fail, Records-lift, Records-ask, Records-attempt, Records-if,
  Records-now, Work-check_once, Work-tailscale_status, Work-port_available, Work-funnel,
  Work-expose, Work-remove, Work-apply, Work-active_requests, Work-verify, Work-remove_logs,
  Work-save,
)

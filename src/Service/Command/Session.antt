-- ===== src/Service/Command/Session.antt =====
-- How the commands of the service use the lock.
use tailpreview.Base.{Bool, true, false, Option, none, some, ◌∷◌}
use tailpreview.Base.Strings.{Text}
use tailpreview.Base.Outcome.{Outcome, ok, err}
use tailpreview.Model.{Registry}
use tailpreview.Errors.{Error}
use tailpreview.Config.{Resolved}
use tailpreview.Host.{History, Service, World, locked, unlocked}
use tailpreview.Host.Monad.{M, pure, continue, finally, ◌>>=◌}
use tailpreview.Host.Calls.{succeeded, outcome_of, lock, load, close, with_registry}
use tailpreview.Host.Session.{
  IsWork, IsBefore, Extends, same, Extends-trans, Records, Records-bind, Records-pure, Records-lift,
  Records-fail, Records-if, Before-wait, Work-load,
}
use tailpreview.Service.Up.{UpRequest, with_health, wait_unless, require, up}
use tailpreview.Service.Check.{check}
use tailpreview.Service.Down.{down}
use tailpreview.Service.Gc.{gc}
use tailpreview.Service.Listing.{list, set_pinned}
use tailpreview.Service.Command.{
  Command, up_command, down_command, check_command, pin_command, unpin_command, list_command,
  gc_command, done, run_command,
}
use tailpreview.Service.Command.Work.{
  Works, found-Works, up_locked-Works, down_found-Works, check_found-Works, list_previews-Works,
  pin_found-Works, collect-Works,
}

-- The calls of a command: nothing but health checks; or these and a lock that was refused; or these,
-- the lock, work, and the end of the lock.
pub data Session (old : History) : History → Type 0 where
  not_begun : {h : History} → Extends IsBefore old h → Session old h
  refused : {h : History} → Extends IsBefore old h → Session old (locked false ∷ h)
  complete :
      {h k : History}
      → Extends IsBefore old h
      → Extends IsWork (locked true ∷ h) k
      → Session old (unlocked ∷ k)

record HasSession {A : Type 0} (m : M A) : Type 0 where
  at : (w : World) → Session w.history (m w).1.history

earlier : (a b c : History) → Extends IsBefore a b → Session b c → Session a c
earlier a b _ x (not_begun y) = not_begun (Extends-trans IsBefore a b _ x y)
earlier a b _ x (refused y) = refused (Extends-trans IsBefore a b _ x y)
earlier a b _ x (complete y z) = complete (Extends-trans IsBefore a b _ x y) z

module _ {A B : Type 0} where
  continue-Session :
      (r : Outcome Error A) (f : A → M B) (w : World) (old : History)
      → Extends IsBefore old w.history
      → ((a : A) → HasSession (f a))
      → Session old (continue r f w).1.history
  continue-Session (ok a) f w old x k = earlier old w.history _ x ((k a).at w)
  continue-Session (err e) f w old x k = not_begun x

  before-HasSession :
      (m : M A) (f : A → M B)
      → Records IsBefore m
      → ((a : A) → HasSession (f a))
      → HasSession (m >>= f)
  before-HasSession m f h k = record {
    at = λ w. continue-Session (m w).0 f (m w).1 w.history (h.at w) k;
  }

continue-pure :
    {A B : Type 0} (r : Outcome Error A) (f : A → B) (w : World) (old : History)
    → Session old w.history
    → Session old (continue r (λ a. pure (f a)) w).1.history
continue-pure (ok a) f w old x = x
continue-pure (err e) f w old x = x

done-HasSession : {A : Type 0} (m : M A) → HasSession m → HasSession (done m)
done-HasSession m h = record {
  at = λ w. continue-pure (m w).0 (λ _. tt) (m w).1 w.history (h.at w);
}

module _ (s : Service) where
  with_registry-HasSession :
      {A : Type 0} (body : Registry → M A)
      → ((reg : Registry) → Works (body reg))
      → HasSession (with_registry s body)
  unfolding with_registry lock close
  with_registry-HasSession body k = record { at = λ w. on_lock (s.host.lock w.history) w }
    where
      work : Works (load s >>= body)
      work = Records-bind IsWork (load s) body (Work-load s) k

      on_lock :
          (r : Option Text) (w : World)
          → Session w.history
              (continue
                (outcome_of r)
                (λ _. finally (load s >>= body) (close s))
                (record w { history = locked (succeeded r) ∷ w.history })).1.history
      on_lock none w = complete same (work.at _)
      on_lock (some e) w = refused same

  require-Before : (b : Bool) (e : Error) → Records IsBefore (require b e)
  unfolding require
  require-Before b e =
      Records-if IsBefore b _ _ (Records-pure IsBefore tt) (Records-fail IsBefore e)

  wait_unless-Before : (b : Bool) (cfg : Resolved) → Records IsBefore (wait_unless s b cfg)
  wait_unless-Before true cfg = Records-pure IsBefore tt
  wait_unless-Before false cfg = Before-wait s _

  up-HasSession : (request : UpRequest) → HasSession (up s request)
  unfolding up
  up-HasSession request = before-HasSession _ _ (require-Before _ _) λ _.
      before-HasSession _ _ (Records-lift IsBefore _) λ _.
        before-HasSession _ _ (wait_unless-Before request.skip_health _)
          λ _. with_registry-HasSession _ (up_locked-Works s (with_health request))

  run_command-HasSession : (c : Command) → HasSession (run_command s c)
  unfolding run_command down check list set_pinned gc
  run_command-HasSession (up_command r) = done-HasSession _ (up-HasSession r)
  run_command-HasSession (down_command sel) =
      done-HasSession _
        (with_registry-HasSession _ λ reg. found-Works sel _ _ (down_found-Works s reg))
  run_command-HasSession (check_command sel) =
      done-HasSession _
        (with_registry-HasSession _ λ reg. found-Works sel _ _ (check_found-Works s reg))
  run_command-HasSession (pin_command sel) =
      done-HasSession _
        (with_registry-HasSession _ λ reg. found-Works sel _ _ (pin_found-Works s true reg))
  run_command-HasSession (unpin_command sel) =
      done-HasSession _
        (with_registry-HasSession _ λ reg. found-Works sel _ _ (pin_found-Works s false reg))
  run_command-HasSession list_command =
      done-HasSession _ (with_registry-HasSession _ (list_previews-Works s))
  run_command-HasSession gc_command =
      done-HasSession _ (with_registry-HasSession _ (collect-Works s))

  -- Whatever the collaborators answer, the calls of a command are: at most health checks and no lock; or
  -- these and a lock that was refused; or these, the lock, work, and the end of the lock as the last
  -- call. So a command reads and writes the registry file, Caddy and Tailscale only while it holds the
  -- lock, takes it once, and gives it back on every path.
  pub run_command-Session :
      (c : Command) (w : World) → Session w.history (run_command s c w).1.history
  run_command-Session c w = (run_command-HasSession c).at w

-- ===== src/Service/Valid/Ports.antt =====
-- choosePort: the port that it returns is in the pool, with its gateway, and nobody who stays has it.
use tailpreview.Base.{
  ℕ, zero, suc, ◌+◌, ◌≤◌, ◌≡◌, ◌≢◌, refl, sym, subst, Bool, true, false, Option, none, some, List,
  [], ◌∷◌, ◌++◌, arith, if◌then◌else◌, ◌⊎◌, inr,
}
use tailpreview.Base.Lists.{All, any, All-map, All-append}
use tailpreview.Base.Strings.{Text, text_eq, text_eq_refl}
use tailpreview.Base.Outcome.{Outcome, ok, err}
use tailpreview.Model.{Preview, Registry, PortReservation}
use tailpreview.Errors.{Error}
use tailpreview.Host.{Service, World}
use tailpreview.Host.Monad.{M, continue, ◌>>=◌}
use tailpreview.Service.Select.{without_id}
use tailpreview.Service.Usage.{reservation}
use tailpreview.Service.Port.{
  uses_port, contains_int, add_missing, ports_from, pool, candidates, preferred, reserved_port,
  and_pool, port_start, port_end,
}
use tailpreview.Service.Valid.{Apart, Unique, InPool, Reserved}

-- A value that is returned has `P`.
abbrev pub Gives : {A : Type 0} → (A → Type 0) → M A → Type 0
Gives {A} P m = (w : World) (a : A) → (m w).0 ≡ ok a → P a

module _ {A B : Type 0} where
  continue-Gives :
      (P : B → Type 0) (r : Outcome Error A) (f : A → M B) (w : World) (b : B)
      → ((a : A) → r ≡ ok a → Gives P (f a))
      → (continue r f w).0 ≡ ok b
      → P b
  continue-Gives P (ok a) f w b k h = k a refl w b h
  continue-Gives P (err e) f w b k h = absurd (cc h)

  pub Gives-bind :
      (P : B → Type 0) (m : M A) (f : A → M B) → ((a : A) → Gives P (f a)) → Gives P (m >>= f)
  Gives-bind P m f k w b = continue-Gives P (m w).0 f (m w).1 b (λ a _. k a)

  pub Gives-then :
      (Q : A → Type 0) (P : B → Type 0) (m : M A) (f : A → M B)
      → Gives Q m
      → ((a : A) → Q a → Gives P (f a))
      → Gives P (m >>= f)
  Gives-then Q P m f h k w b = continue-Gives P (m w).0 f (m w).1 b (λ a e. k a (h w a e))

-- Other previews have other ports.
abbrev pub Owns : Preview → Preview → Type 0
Owns v q = text_eq q.id v.id ≡ false → q.external_port ≢ v.external_port

Apart-Owns : (p q : Preview) → Apart p q → Owns p q × Owns q p
Apart-Owns p q h = (λ _ e. h.1 (sym e), λ _. h.1)

All-Owns : (p : Preview) (ps : List Preview) → All (Apart p) ps → All (Owns p) ps
All-Owns p ps = All-map (Apart p) (Owns p) ps (λ q h. (Apart-Owns p q h).0)

All-Owns_cons :
    (p : Preview) (ps qs : List Preview)
    → All (Apart p) ps
    → All (λ v. All (Owns v) qs) ps
    → All (λ v. All (Owns v) (p ∷ qs)) ps
All-Owns_cons p [] qs h k = tt
All-Owns_cons p (v ∷ ps) qs h k = (((Apart-Owns p v h.0).1, k.0), All-Owns_cons p ps qs h.1 k.1)

-- Each preview of a unique list owns its port.
pub Unique-Owns : (ps : List Preview) → Unique ps → All (λ v. All (Owns v) ps) ps
Unique-Owns [] u = tt
Unique-Owns (p ∷ ps) u = (
  ((λ h. absurd (cc (h, text_eq_refl p.id))), All-Owns p ps u.0),
  All-Owns_cons p ps ps u.0 (Unique-Owns ps u.1),
)

pub All-without_id :
    (P : Preview → Type 0) (id : Text) (ps : List Preview)
    → All (λ q. text_eq q.id id ≡ false → P q) ps
    → All P (without_id ps id)
unfolding without_id
All-without_id P id [] h = tt
All-without_id P id (q ∷ qs) h = ground (arith, All-without_id P id qs h.1, h.0)

pub without_id-ne :
    (id : Text) (ps : List Preview) → All (λ q. text_eq q.id id ≡ false) (without_id ps id)
without_id-ne id ps = All-without_id _ id ps (all_self ps)
  where
    all_self : (xs : List Preview) → All (λ q. text_eq q.id id ≡ false → text_eq q.id id ≡ false) xs
    all_self [] = tt
    all_self (x ∷ xs) = (λ h. h, all_self xs)

pub any-false :
    (p : ℕ) (ps : List Preview) → any (uses_port p) ps ≡ false → All (λ q. q.external_port ≢ p) ps
any-false p [] h = tt
any-false p (q ∷ qs) h = ground (arith, any-false p qs)

-- The ports in question are all in the pool.
module _ (s : Service) where
  ports_from-InPool :
      (n p : ℕ)
      → port_start s ≤ p
      → (n ≡ 0) ⊎ (p + n ≤ suc (port_end s))
      → All (InPool s) (ports_from n p)
  unfolding ports_from
  ports_from-InPool zero p h k = tt
  ports_from-InPool (suc n) p h k =
      ((h, omega arith), ports_from-InPool n (suc p) (omega arith) (inr (omega arith)))

  pool-InPool : All (InPool s) (pool s)
  unfolding pool
  pool-InPool = ports_from-InPool _ (port_start s) (omega arith) (omega arith)

  extended :
      (b : Bool) (acc : List ℕ) (p : ℕ)
      → All (InPool s) acc
      → InPool s p
      → All (InPool s) (if b then acc else acc ++ p ∷ [])
  extended true acc p h k = h
  extended false acc p h k = All-append (InPool s) acc (p ∷ []) h (k, tt)

  add_missing-InPool :
      (acc ps : List ℕ)
      → All (InPool s) acc
      → All (InPool s) ps
      → All (InPool s) (add_missing acc ps)
  unfolding add_missing
  add_missing-InPool acc [] h k = h
  add_missing-InPool acc (p ∷ ps) h k =
      add_missing-InPool (if contains_int acc p then acc else acc ++ p ∷ []) ps
        (extended (contains_int acc p) acc p h k.0) k.1

  reservation-InPool :
      (id : Text) (m : List (Text × PortReservation)) (r : PortReservation)
      → All (Reserved s) m
      → reservation id m ≡ some r
      → InPool s r.port
  unfolding reservation
  reservation-InPool id [] r h e = cc
  reservation-InPool id (x ∷ m) r h e = ground (arith, reservation-InPool id m r h.1)

  reserved_port-InPool :
      (id : Text) (reg : Registry) (r : Option PortReservation)
      → All (Reserved s) reg.reservations
      → reservation id reg.reservations ≡ r
      → All (InPool s) (reserved_port r)
  reserved_port-InPool id reg none h e = tt
  reserved_port-InPool id reg (some r) h e = (reservation-InPool id reg.reservations r h e, tt)

  preferred-InPool :
      (reg : Registry) (id : Text) (requested : ℕ) (ps : List ℕ)
      → All (Reserved s) reg.reservations
      → preferred s reg id requested ≡ ok ps
      → All (InPool s) ps
  preferred-InPool reg id requested ps h e = ground (arith, reserved_port-InPool id reg _ h refl)

  and_pool-InPool :
      (r : Outcome Error (List ℕ)) (ps : List ℕ)
      → ((qs : List ℕ) → r ≡ ok qs → All (InPool s) qs)
      → and_pool s r ≡ ok ps
      → All (InPool s) ps
  and_pool-InPool (ok qs) ps h e =
      subst (All (InPool s)) (cc) (add_missing-InPool qs (pool s) (h qs refl) pool-InPool)
  and_pool-InPool (err x) ps h e = absurd (cc e)

  pub candidates-InPool :
      (reg : Registry) (id : Text) (requested : ℕ) (ps : List ℕ)
      → All (Reserved s) reg.reservations
      → candidates s reg id requested ≡ ok ps
      → All (InPool s) ps
  unfolding candidates
  candidates-InPool reg id requested ps h =
      and_pool-InPool _ ps (λ qs. preferred-InPool reg id requested qs h)

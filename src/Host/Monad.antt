-- ===== src/Host/Monad.antt =====
-- A method of the service: it reads and writes the world, and returns a value or an error.
use tailpreview.Base.Outcome.{Outcome, ok, err}
use tailpreview.Host.{World}
use tailpreview.Errors.{Error}

abbrev pub M : Type 0 → Type 0
M A = World → Outcome Error A × World

module _ {A : Type 0} where
  abbrev pub pure : A → M A
  pure a w = (ok a, w)

  abbrev pub fail : Error → M A
  fail e w = (err e, w)

  abbrev pub lift : Outcome Error A → M A
  lift r w = (r, w)

module _ {A B : Type 0} where
  abbrev pub continue : Outcome Error A → (A → M B) → M B
  continue (ok a) f w = f a w
  continue (err e) f w = (err e, w)

  infixl 5 ◌>>=◌ ◌>>◌
  abbrev pub ◌>>=◌ : M A → (A → M B) → M B
  ◌>>=◌ m f w = let (r, w') = m w in continue r f w'

  abbrev pub ◌>>◌ : M A → M B → M B
  m >> k = m >>= λ _. k

-- `_ = call()`: the error is dropped.
abbrev pub attempt : {A : Type 0} → M A → M (Unit {0})
attempt m w = (ok tt, (m w).1)

-- `defer cleanup()`: it runs after the body, whatever the body returned.
abbrev pub finally : {A : Type 0} → M A → M (Unit {0}) → M A
finally m cleanup w = let (r, w') = m w in (r, (cleanup w').1)

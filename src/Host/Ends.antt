-- ===== src/Host/Ends.antt =====
-- A postcondition on the result and the world of an action that succeeds, with its rules.
use tailpreview.Base.{◌≡◌, refl, ap}
use tailpreview.Base.Outcome.{Outcome, ok, err}
use tailpreview.Errors.{Error}
use tailpreview.Host.{World}
use tailpreview.Host.Monad.{M, continue, ◌>>=◌}

-- A result of the action, with the world that it leaves.
pub record Ends {A : Type 0} (Q : A → World → Type 0) (m : M A) : Type 0 where
  pub at : (w w' : World) (a : A) → m w ≡ (ok a, w') → Q a w'

module _ {A B : Type 0} (Q : B → World → Type 0) where
  pub continue_ends :
      (R : A → World → Type 0) (x : Outcome Error A × World) (f : A → M B) (w' : World) (b : B)
      → ((a : A) (v : World) → x ≡ (ok a, v) → R a v)
      → ((a : A) (v v' : World) (c : B) → R a v → f a v ≡ (ok c, v') → Q c v')
      → continue x.0 f x.1 ≡ (ok b, w')
      → Q b w'
  continue_ends R (ok a, v) f w' b k l h = l a v w' b (k a v refl) h
  continue_ends R (err e, v) f w' b k l h = absurd (cc (ap (λ r. r.0) h))

  pub Ends-then :
      (R : A → World → Type 0) (m : M A) (f : A → M B)
      → Ends R m
      → ((a : A) (v v' : World) (c : B) → R a v → f a v ≡ (ok c, v') → Q c v')
      → Ends Q (m >>= f)
  Ends-then R m f k l = record {
    at = λ w w' b h. continue_ends R (m w) f w' b (λ a v. k.at w v a) l h;
  }

  pub Ends-bind : (m : M A) (f : A → M B) → ((a : A) → Ends Q (f a)) → Ends Q (m >>= f)
  Ends-bind m f l =
      Ends-then (λ _ _. Unit {0}) m f (record { at = λ w v a e. tt })
        (λ a v v' c u. (l a).at v v' c)

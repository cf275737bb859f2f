-- ===== src/Service/Undo.antt =====
-- The rules for a step that is undone when it fails.
use tailpreview.Base.{◌≡◌, refl, sym, subst, ◌∙◌}
use tailpreview.Base.Outcome.{Outcome, ok, err}
use tailpreview.Model.{Registry}
use tailpreview.Errors.{Error}
use tailpreview.Host.{World}
use tailpreview.Host.Monad.{M}
use tailpreview.Host.Invariant.{Keeps}
use tailpreview.Host.Keeps.{Silent, Atomic}
use tailpreview.Service.Up.{undone, or_undo}

module _ {A : Type 0} where
  undone-Silent :
      (r : Outcome Error A) (undo : M (Unit {0})) (f : Error → Error) (w : World)
      → Silent undo
      → (undone r undo f w).1.disk ≡ w.disk
  undone-Silent (ok a) undo f w k = refl
  undone-Silent (err e) undo f w k = k.at w

  pub Silent-or_undo :
      (m : M A) (undo : M (Unit {0})) (f : Error → Error)
      → Silent m
      → Silent undo
      → Silent (or_undo m undo f)
  Silent-or_undo m undo f h k = record { at = λ w. undone-Silent (m w).0 undo f (m w).1 k ∙ h.at w }

  undone-Atomic :
      (r : Outcome Error A) (undo : M (Unit {0})) (f : Error → Error) (w w' : World) (e : Error)
      → Silent undo
      → ((x : Error) → r ≡ err x → w'.disk ≡ w.disk)
      → (undone r undo f w').0 ≡ err e
      → (undone r undo f w').1.disk ≡ w.disk
  undone-Atomic (ok a) undo f w w' e k h p = cc
  undone-Atomic (err x) undo f w w' e k h p = k.at w' ∙ h x refl

  pub Atomic-or_undo :
      (m : M A) (undo : M (Unit {0})) (f : Error → Error)
      → Atomic m
      → Silent undo
      → Atomic (or_undo m undo f)
  Atomic-or_undo m undo f h k = record {
    at = λ w e. undone-Atomic (m w).0 undo f w (m w).1 e k (h.at w);
  }

module _ {A : Type 0} (I : Registry → Type 0) (P : A → Type 0) where
  undone_value :
      (r : Outcome Error A) (undo : M (Unit {0})) (f : Error → Error) (w : World) (a : A)
      → (undone r undo f w).0 ≡ ok a
      → r ≡ ok a
  undone_value (ok b) undo f w a h = h
  undone_value (err e) undo f w a h = absurd (cc h)

  pub Keeps-or_undo :
      (m : M A) (undo : M (Unit {0})) (f : Error → Error)
      → Silent undo
      → Keeps I P m
      → Keeps I P (or_undo m undo f)
  Keeps-or_undo m undo f k h = record {
    file = λ w i. subst I (sym (undone-Silent (m w).0 undo f (m w).1 k)) (h.file w i);
    value = λ w a i e. h.value w a i (undone_value (m w).0 undo f (m w).1 a e);
  }

-- ===== src/Host/Invariant.antt =====
-- Rules for an invariant of the registry file, with what a returned value satisfies.
use tailpreview.Base.Strings.{Text}
use tailpreview.Base.{Option, ◌≡◌, refl, sym, subst, none, some}
use tailpreview.Base.Outcome.{Outcome, ok, err}
use tailpreview.Model.{Registry}
use tailpreview.Errors.{Error}
use tailpreview.Host.{Service, World}
use tailpreview.Host.Monad.{M, pure, fail, lift, continue, finally, ◌>>=◌}
use tailpreview.Host.Calls.{write_file, read_file, save, load, close, with_registry}
use tailpreview.Host.Keeps.{Silent, Silent-lock, Silent-close}

-- `I` of the file is kept, and a value that is returned has `P`.
pub record Keeps {A : Type 0} (I : Registry → Type 0) (P : A → Type 0) (m : M A) : Type 0 where
  pub file : (w : World) → I w.disk → I (m w).1.disk
  pub value : (w : World) (a : A) → I w.disk → (m w).0 ≡ ok a → P a

abbrev pub Any : {A : Type 0} → A → Type 0
Any _ = Unit

module _ {A : Type 0} (I : Registry → Type 0) where
  pub Keeps-Silent :
      (P : A → Type 0) (m : M A)
      → Silent m
      → ((w : World) (a : A) → (m w).0 ≡ ok a → P a)
      → Keeps I P m
  Keeps-Silent P m h k = record {
    file = λ w i. subst I (sym (h.at w)) i;
    value = λ w a _ e. k w a e;
  }

  pub Keeps-Any : (m : M A) → Silent m → Keeps I Any m
  Keeps-Any m h = Keeps-Silent Any m h (λ w a _. tt)

  pub Keeps-pure : (P : A → Type 0) (a : A) → P a → Keeps I P (pure a)
  Keeps-pure P a h = record { file = λ w i. i; value = λ w b _ e. subst P (cc) h }

  pub Keeps-fail : (P : A → Type 0) (e : Error) → Keeps I P (fail e)
  Keeps-fail P e = record { file = λ w i. i; value = λ w b _ h. absurd (cc h) }

  pub Keeps-lift :
      (P : A → Type 0) (r : Outcome Error A) → ((a : A) → r ≡ ok a → P a) → Keeps I P (lift r)
  Keeps-lift P r h = record { file = λ w i. i; value = λ w a _ e. h a e }

  pub Keeps-weaken :
      (P Q : A → Type 0) (m : M A) → ((a : A) → P a → Q a) → Keeps I P m → Keeps I Q m
  Keeps-weaken P Q m f h = record { file = h.file; value = λ w a i e. f a (h.value w a i e) }

module _ {A B : Type 0} (I : Registry → Type 0) (P : A → Type 0) (Q : B → Type 0) where
  continue-Keeps_file :
      (r : Outcome Error A) (f : A → M B) (w : World)
      → I w.disk
      → ((a : A) → r ≡ ok a → Keeps I Q (f a))
      → I (continue r f w).1.disk
  continue-Keeps_file (ok a) f w i k = (k a refl).file w i
  continue-Keeps_file (err e) f w i k = i

  continue-Keeps_value :
      (r : Outcome Error A) (f : A → M B) (w : World) (b : B)
      → I w.disk
      → ((a : A) → r ≡ ok a → Keeps I Q (f a))
      → (continue r f w).0 ≡ ok b
      → Q b
  continue-Keeps_value (ok a) f w b i k h = (k a refl).value w b i h
  continue-Keeps_value (err e) f w b i k h = absurd (cc h)

  pub Keeps-bind :
      (m : M A) (f : A → M B)
      → Keeps I P m
      → ((a : A) → P a → Keeps I Q (f a))
      → Keeps I Q (m >>= f)
  Keeps-bind m f h k = record {
    file = λ w i. continue-Keeps_file (m w).0 f (m w).1 (h.file w i) (λ a e. k a (h.value w a i e));
    value = λ w b i.
        continue-Keeps_value (m w).0 f (m w).1 b (h.file w i) (λ a e. k a (h.value w a i e));
  }

module _ {A B : Type 0} (I : Registry → Type 0) (Q : B → Type 0) where
  -- A step that leaves the file alone and whose value does not matter.
  pub Keeps-step :
      (m : M A) (f : A → M B) → Silent m → ((a : A) → Keeps I Q (f a)) → Keeps I Q (m >>= f)
  Keeps-step m f h k = Keeps-bind I Any Q m f (Keeps-Any I m h) (λ a _. k a)

module _ {A : Type 0} (I : Registry → Type 0) (P : A → Type 0) where
  pub Keeps-finally :
      (m : M A) (c : M (Unit {0})) → Silent c → Keeps I P m → Keeps I P (finally m c)
  Keeps-finally m c k h = record {
    file = λ w i. subst I (sym (k.at (m w).1)) (h.file w i);
    value = h.value;
  }

module _ (s : Service) (I : Registry → Type 0) where
  written : (r : Option Text) (new old : Registry) → I new → I old → I (write_file r new old)
  written none new old h k = h
  written (some e) new old h k = k

  read : (r : Option Text) (reg a : Registry) → I reg → read_file r reg ≡ ok a → I a
  read none reg a h e = subst I (cc) h
  read (some x) reg a h e = absurd (cc e)

  pub Keeps-save : (reg : Registry) → I reg → Keeps I Any (save s reg)
  unfolding save
  Keeps-save reg h = record { file = λ w i. written _ reg w.disk h i; value = λ w a _ _. tt }

  pub Keeps-load : Keeps I I (load s)
  unfolding load
  Keeps-load = record { file = λ w i. i; value = λ w a i e. read _ w.disk a i e }

  pub Keeps-with_registry :
      {A : Type 0} (P : A → Type 0) (body : Registry → M A)
      → ((reg : Registry) → I reg → Keeps I P (body reg))
      → Keeps I P (with_registry s body)
  unfolding with_registry
  Keeps-with_registry P body k =
      Keeps-bind I Any P _ _ (Keeps-Any I _ (Silent-lock s))
        λ _ _. Keeps-finally I P _ (close s) (Silent-close s) (Keeps-bind I I P _ body Keeps-load k)

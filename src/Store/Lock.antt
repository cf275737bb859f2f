-- ===== src/Store/Lock.antt =====
-- Store.Lock and Locked.Close of internal/state/store.go: the descriptors of the lock file and the
-- lock of flock. Closing a descriptor gives its lock back, whatever close answers.
use tailpreview.Base.{
  ℕ, ◌-◌, ◌+◌, Bool, true, false, ◌≡◌, refl, sym, ap, ◌∙◌, Option, none, some, arith,
}
use tailpreview.Base.Strings.{Text}
use tailpreview.Base.Outcome.{Outcome, ok, err}

-- What os.MkdirAll, os.OpenFile and Flock answer.
pub record LockAnswers : Type 0 where
  pub make_directory : Option Text
  pub opening : Option Text
  pub flock : Option Text

-- The descriptors of the lock file that are open in this process, and whether one holds the lock.
pub record Descriptors : Type 0 where
  pub count : ℕ
  pub held : Bool

-- Locked: whether its file is not nil.
pub record Locked : Type 0 where
  pub has_file : Bool

abbrev pub opened : Descriptors → Descriptors
opened d = record d { count = d.count + 1 }

abbrev pub closed : Descriptors → Descriptors
closed d = record { count = d.count - 1; held = false }

-- `if err := Flock(...); err != nil { f.Close() ... }`
abbrev pub on_flock : Option Text → Descriptors → Outcome Text Locked × Descriptors
on_flock (some e) d = (err e, record d { count = d.count - 1 })
on_flock none d = (ok (record { has_file = true }), record d { held = true })

abbrev pub on_opening : Option Text → Option Text → Descriptors → Outcome Text Locked × Descriptors
on_opening (some e) flock d = (err e, d)
on_opening none flock d = on_flock flock (opened d)

abbrev pub on_directory :
    LockAnswers → Option Text → Descriptors → Outcome Text Locked × Descriptors
on_directory a (some e) d = (err e, d)
on_directory a none d = on_opening a.opening a.flock d

unfoldable pub lock : LockAnswers → Descriptors → Outcome Text Locked × Descriptors
lock a d = on_directory a a.make_directory d

abbrev pub first_error : Option Text → Option Text → Option Text
first_error (some e) o = some e
first_error none o = o

abbrev pub on_file : Bool → Option Text → Option Text → Descriptors → Option Text × Descriptors
on_file false unlock_error close_error d = (none, d)
on_file true unlock_error close_error d = (first_error unlock_error close_error, closed d)

-- Locked.Close with the answers of Flock and Close: its error, the Locked, and the descriptors.
unfoldable pub close :
    Option Text → Option Text → Locked → Descriptors → (Option Text × Descriptors) × Locked
close unlock_error close_error l d =
    (on_file l.has_file unlock_error close_error d, record { has_file = false })

module _ (d : Descriptors) where
  -- An error left the descriptors as they were; otherwise the lock is held with one more descriptor,
  -- Close gives both back, and closing again changes nothing and returns nil.
  abbrev pub IsBalanced : Outcome Text Locked × Descriptors → Type 0
  IsBalanced (err e, d1) = d1 ≡ d
  IsBalanced (ok l, d1) =
      (d1.held ≡ true)
      × (d1.count ≡ d.count + 1)
      × ((unlock_error close_error : Option Text)
          → let ((e, d2), l2) = close unlock_error close_error l d1 in
            (d2 ≡ d)
            × (e ≡ first_error unlock_error close_error)
            × ((u c : Option Text) → (close u c l2 d2).0 ≡ (none, d2)))

  count_back : (n : ℕ) → (n + 1) - 1 ≡ n
  count_back n = omega arith

  with_parts : ℕ → Bool → Descriptors
  with_parts n b = record { count = n; held = b }

  closed_back : d.held ≡ false → (n : ℕ) → n ≡ d.count → with_parts n false ≡ d
  unfolding with_parts
  closed_back h n e = ap (λ m. with_parts m false) e ∙ ap (with_parts d.count) (sym h)

  flock_lem : d.held ≡ false → (o : Option Text) → IsBalanced (on_flock o (opened d))
  unfolding close with_parts
  flock_lem h (some e) = ap (λ n. with_parts n d.held) (count_back d.count)
  flock_lem h none =
      (refl, refl, λ u c. (closed_back h _ (count_back d.count), refl, λ u' c'. refl))

  opening_lem : d.held ≡ false → (o flock : Option Text) → IsBalanced (on_opening o flock d)
  opening_lem h (some e) flock = refl
  opening_lem h none flock = flock_lem h flock

  directory_lem :
      (a : LockAnswers) → d.held ≡ false → (o : Option Text) → IsBalanced (on_directory a o d)
  directory_lem a h (some e) = refl
  directory_lem a h none = opening_lem h a.opening a.flock

  -- Where no descriptor holds the lock, Lock either fails and leaves no descriptor behind, or holds the
  -- lock with one descriptor; then Close gives both back, whatever it returns, and a second Close
  -- changes nothing and returns nil.
  pub lock-IsBalanced : (a : LockAnswers) → d.held ≡ false → IsBalanced (lock a d)
  unfolding lock
  lock-IsBalanced a h = directory_lem a h a.make_directory

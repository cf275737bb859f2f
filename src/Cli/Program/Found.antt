-- ===== src/Cli/Program/Found.antt =====
-- The preview that `status` and `logs` of cmd/tailpreview/main.go find in the list.
use tailpreview.Base.{
  true, false, ◌≡◌, ◌⊎◌, inl, inr, refl, subst, ap, Bool, ◌||◌, List, [], ◌∷◌, ◌++◌, arith,
}
use tailpreview.Base.Lists.{All}
use tailpreview.Base.Strings.{Text, text_eq, text_eq_iff}
use tailpreview.Base.Outcome.{ok, err}
use tailpreview.Errors.{Error, not_found}
use tailpreview.Model.{Preview}
use tailpreview.Cli.Program.{find_listed}

-- The preview has the selector as its identifier, name or project.
abbrev pub Matches : Text → Preview → Type 0
Matches selector p = (p.id ≡ selector) ⊎ (p.name ≡ selector) ⊎ (p.project_root ≡ selector)

abbrev pub IsOther : Text → Preview → Type 0
IsOther selector p = Matches selector p → ⊥

-- The first of a list that matches.
abbrev pub IsFirst : Text → List Preview → Preview → Type 0
IsFirst selector ps p =
    (before : List Preview) × (after : List Preview) × (ps ≡ before ++ p ∷ after)
    × All (IsOther selector) before
    × Matches selector p

test_lem :
    (selector : Text) (p : Preview)
    → ((text_eq p.id selector || text_eq p.name selector || text_eq p.project_root selector) ≡ true
        × Matches selector p)
      ⊎ ((text_eq p.id selector || text_eq p.name selector || text_eq p.project_root selector)
            ≡ false
          × IsOther selector p)
test_lem selector p =
    by_test (text_eq p.id selector) (text_eq p.name selector) (text_eq p.project_root selector) refl
      refl refl
  where
    by_test :
        (a b c : Bool)
        → text_eq p.id selector ≡ a
        → text_eq p.name selector ≡ b
        → text_eq p.project_root selector ≡ c
        → ((a || b || c) ≡ true × Matches selector p) ⊎ ((a || b || c) ≡ false × IsOther selector p)
    by_test true b c e f g = inl (refl, inl ((text_eq_iff _ _).0 e))
    by_test false true c e f g = inl (refl, inr (inl ((text_eq_iff _ _).0 f)))
    by_test false false true e f g = inl (refl, inr (inr ((text_eq_iff _ _).0 g)))
    by_test false false false e f g = inr (refl, differs)
      where
        differs : IsOther selector p
        differs (inl k) = cc (e, (text_eq_iff p.id selector).1 k)
        differs (inr (inl k)) = cc (f, (text_eq_iff p.name selector).1 k)
        differs (inr (inr k)) = cc (g, (text_eq_iff p.project_root selector).1 k)

pub find_listed_ok :
    (selector : Text) (ps : List Preview) (p : Preview)
    → find_listed selector ps ≡ ok p
    → IsFirst selector ps p
unfolding find_listed
find_listed_ok selector [] p h = absurd (cc h)
find_listed_ok selector (q ∷ qs) p h = elim (test_lem selector q) [
  | inl (e, m) ↦
      let same : q ≡ p = ground arith in
      subst (IsFirst selector (q ∷ qs)) same ([], qs, refl, tt, m)
  | inr (e, m) ↦
      let (before, after, split, others, found) = find_listed_ok selector qs p (ground arith) in
      (q ∷ before, after, ap (◌∷◌ q) split, (m, others), found)
]

pub find_listed_err :
    (selector : Text) (ps : List Preview) (e : Error)
    → find_listed selector ps ≡ err e
    → (e ≡ not_found selector) × All (IsOther selector) ps
unfolding find_listed
find_listed_err selector [] e h = (ground arith, tt)
find_listed_err selector (q ∷ qs) e h = elim (test_lem selector q) [
  | inl (b, m) ↦ absurd (ground arith)
  | inr (b, m) ↦
      let (same, others) = find_listed_err selector qs e (ground arith) in (same, (m, others))
]

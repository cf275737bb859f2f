-- ===== src/Config/Substitute/Missing.antt =====
-- When substitute of internal/config/config.go fails, and with which names.
use tailpreview.Base.{
  zero, ◌≡◌, refl, ◌↔◌, ◌≢◌, ◌⊎◌, true, false, Option, none, some, List, [], ◌∷◌, arith, Bool-cases,
}
use tailpreview.Base.Lists.{Some}
use tailpreview.Base.Strings.{Text, text_eq, text_eq_iff}
use tailpreview.Base.Outcome.{Outcome, ok, err}
use tailpreview.Errors.{Error, missing_variables}
use tailpreview.Config.Substitute.{
  Piece, character, variable, pieces, value_of, if_none, filled_text, text_lt, insert_name,
  add_name, missing_names, or_missing, substitute,
}

-- The names of the matches.
abbrev pub variables : List Piece → List Text
variables [] = []
variables (character _ ∷ ps) = variables ps
variables (variable name ∷ ps) = name ∷ variables ps

insert_name_lem :
    (name n : Text) (ns : List Text)
    → Some (λ m. m ≡ name) (insert_name n ns) ↔ ((n ≡ name) ⊎ Some (λ m. m ≡ name) ns)
unfolding insert_name
insert_name_lem name n [] = (λ h. h, λ h. h)
insert_name_lem name n (m ∷ ns) =
    ground (arith, insert_name_lem name n ns, text_eq_iff n m, Bool-cases (text_lt n m))

module _ (values : List (Text × Text)) (environment : Text → Option Text) where
  -- A match with this name, for which there is no value.
  abbrev pub IsMissing : List Piece → Text → Type 0
  IsMissing ps name = Some (λ m. m ≡ name) (variables ps) × value_of values environment name ≡ none

  match-IsMissing :
      (ps : List Piece) (rest : List Text) (n name : Text) (v : Option Text)
      → value_of values environment n ≡ v
      → (Some (λ m. m ≡ name) rest ↔ IsMissing ps name)
      → Some (λ m. m ≡ name) (add_name (if_none v n) rest) ↔ IsMissing (variable n ∷ ps) name
  match-IsMissing ps rest n name none e h = ground (arith, insert_name_lem name n rest)
  match-IsMissing ps rest n name (some v) e h = ground arith

  missing_names_lem :
      (ps : List Piece) (name : Text)
      → Some (λ m. m ≡ name) (missing_names values environment ps) ↔ IsMissing ps name
  unfolding missing_names
  missing_names_lem [] name = (λ h. elim h [ ], λ h. elim h.0 [ ])
  missing_names_lem (character _ ∷ ps) name = missing_names_lem ps name
  missing_names_lem (variable n ∷ ps) name =
      match-IsMissing ps _ n name _ refl (missing_names_lem ps name)

-- Each name once, in the order of sort.Strings.
abbrev pub IsAscending : List Text → Type 0
IsAscending [] = Unit
IsAscending (n ∷ []) = Unit
IsAscending (n ∷ m ∷ ns) = text_lt n m ≡ true × IsAscending (m ∷ ns)

text_lt_total : (s t : Text) → text_eq s t ≡ false → text_lt s t ≡ false → text_lt t s ≡ true
unfolding text_eq text_lt
text_lt_total [] [] h k = absurd (cc h)
text_lt_total [] (b ∷ t) h k = absurd (cc k)
text_lt_total (a ∷ s) [] h k = refl
text_lt_total (a ∷ s) (b ∷ t) h k = ground (arith, text_lt_total s t)

insert_name-IsAscending :
    (name : Text) (ns : List Text) → IsAscending ns → IsAscending (insert_name name ns)
unfolding insert_name
insert_name-IsAscending name [] h = tt
insert_name-IsAscending name (n ∷ []) h = ground (arith, text_lt_total name n)
insert_name-IsAscending name (n ∷ m ∷ ns) h =
    ground (arith, text_lt_total name n, insert_name-IsAscending name (m ∷ ns) h.1)

added-IsAscending :
    (v : Option Text) (n : Text) (ns : List Text)
    → IsAscending ns
    → IsAscending (add_name (if_none v n) ns)
added-IsAscending none n ns h = insert_name-IsAscending n ns h
added-IsAscending (some _) n ns h = h

module _ (values : List (Text × Text)) (environment : Text → Option Text) where
  missing_names-IsAscending : (ps : List Piece) → IsAscending (missing_names values environment ps)
  unfolding missing_names
  missing_names-IsAscending [] = tt
  missing_names-IsAscending (character _ ∷ ps) = missing_names-IsAscending ps
  missing_names-IsAscending (variable n ∷ ps) =
      added-IsAscending (value_of values environment n) n _ (missing_names-IsAscending ps)

  -- Without a missing name, the text with the values filled in; otherwise the error that lists the
  -- missing names.
  abbrev pub Answers : List Piece → Outcome Error Text → Type 0
  Answers ps (ok text) =
      ((name : Text) → ¬ IsMissing values environment ps name)
      × text ≡ filled_text values environment ps
  Answers ps (err e) =
      (ns : List Text) × e ≡ missing_variables ns
      × ns ≢ []
      × IsAscending ns
      × ((name : Text) → Some (λ m. m ≡ name) ns ↔ IsMissing values environment ps name)

  or_missing_lem :
      (ps : List Piece) (ns : List Text)
      → ((name : Text) → Some (λ m. m ≡ name) ns ↔ IsMissing values environment ps name)
      → IsAscending ns
      → Answers ps (or_missing ns (filled_text values environment ps))
  or_missing_lem ps [] h k = (λ name m. elim ((h name).1 m) [ ], refl)
  or_missing_lem ps (n ∷ ns) h k = (n ∷ ns, refl, (λ q. cc), k, h)

  -- substitute fails exactly when a match has neither an explicit value nor one in the environment;
  -- the error then lists the names of these matches, all of them, each once and in order; otherwise
  -- the answer is the text with every match replaced by its value.
  pub substitute-Answers :
      (raw : Text) → Answers (pieces zero raw) (substitute values environment raw)
  unfolding substitute
  substitute-Answers raw =
      or_missing_lem (pieces zero raw) _ (missing_names_lem values environment (pieces zero raw))
        (missing_names-IsAscending (pieces zero raw))

-- ===== src/Config/Substitute.antt =====
-- substitute of internal/config/config.go, with its pattern `\$\{([A-Za-z_][A-Za-z0-9_]*)\}`.
pub mod Pieces
pub mod Missing
use tailpreview.Base.{
  ℕ, zero, suc, ◌+◌, Bool, true, false, not, ◌&&◌, ◌||◌, Option, none, some, List, [], ◌∷◌, ◌++◌,
  ltb, leb, ◌==◌, if◌then◌else◌, ◌≡◌, refl,
}
use tailpreview.Base.Lists.{length}
use tailpreview.Base.Strings.{Text, codes, text_eq, is_empty}
use tailpreview.Base.Outcome.{Outcome, ok, err}
use tailpreview.Errors.{Error, missing_variables}
use tailpreview.Config.Values.{lookup}

abbrev pub is_name_start : ℕ → Bool
is_name_start c = (leb b'A' c && leb c b'Z') || (leb b'a' c && leb c b'z') || c == b'_'

abbrev pub is_name_rune : ℕ → Bool
is_name_rune c = is_name_start c || (leb b'0' c && leb c b'9')

-- The name that a text begins with, up to a brace that closes it.
unfoldable pub name_until_brace : Text → Option Text
name_until_brace [] = none
name_until_brace (c ∷ s) =
    let more : Option Text = elim (name_until_brace s) [
      | none ↦ none
      | some name ↦ some (c ∷ name)
    ] in
    if c == b'}' then some [] else if is_name_rune c then more else none

abbrev pub begins_name : Text → Option Text → Option Text
begins_name [] name = none
begins_name (c ∷ s) name = if is_name_start c then name else none

abbrev pub after_dollar : Text → Option Text
after_dollar [] = none
after_dollar (c ∷ s) = if c == b'{' then begins_name s (name_until_brace s) else none

-- A match of the pattern at the beginning of a text: the name.
unfoldable pub variable_at : Text → Option Text
unfolding name_until_brace
variable_at [] = none
variable_at (c ∷ s) = if c == b'$' then after_dollar s else none

-- What ReplaceAllStringFunc sees: a character that it keeps, or a match.
pub data Piece : Type 0 where
  character : ℕ → Piece
  variable : Text → Piece

abbrev pub at_position : ℕ → Option Text → List Piece → (ℕ → List Piece) → List Piece
at_position c none kept next = character c ∷ kept
at_position c (some name) kept next = variable name ∷ next (suc (suc (length name)))

-- The matches from left to right, where the first characters belong to a match before them.
unfoldable pub pieces : ℕ → Text → List Piece
pieces k [] = []
pieces (suc k) (c ∷ s) = pieces k s
pieces zero (c ∷ s) = at_position c (variable_at (c ∷ s)) (pieces zero s) (λ k. pieces k s)

abbrev pub or_environment : Option Text → Option Text → Option Text
or_environment (some v) e = some v
or_environment none e = e

abbrev pub if_none : Option Text → Text → Option Text
if_none none name = some name
if_none (some v) name = none

module _ (values : List (Text × Text)) (environment : Text → Option Text) where
  -- An explicit value, or else that of the environment.
  unfoldable pub value_of : Text → Option Text
  value_of name = or_environment (lookup name values) (environment name)

  abbrev pub filled : Text → Option Text → Text
  filled name none = codes "${" ++ (name ++ codes "}")
  filled name (some v) = v

  abbrev pub filled_piece : Piece → Text
  filled_piece (character c) = c ∷ []
  filled_piece (variable name) = filled name (value_of name)

  unfoldable pub filled_text : List Piece → Text
  filled_text [] = []
  filled_text (p ∷ ps) = filled_piece p ++ filled_text ps

  abbrev pub missing_name : Piece → Option Text
  missing_name (character _) = none
  missing_name (variable name) = if_none (value_of name) name

-- sort.Strings on the keys of a map: each name once, in the order of the code points.
unfoldable pub text_lt : Text → Text → Bool
text_lt s [] = false
text_lt [] (_ ∷ _) = true
text_lt (a ∷ s) (b ∷ t) = if ltb a b then true else if a == b then text_lt s t else false

unfoldable pub insert_name : Text → List Text → List Text
insert_name name [] = name ∷ []
insert_name name (n ∷ ns) =
    let later : List Text = n ∷ insert_name name ns in
    if text_eq name n then n ∷ ns else if text_lt name n then name ∷ n ∷ ns else later

abbrev pub add_name : Option Text → List Text → List Text
add_name none ns = ns
add_name (some name) ns = insert_name name ns

unfoldable pub missing_names : List (Text × Text) → (Text → Option Text) → List Piece → List Text
missing_names values env [] = []
missing_names values env (p ∷ ps) =
    add_name (missing_name values env p) (missing_names values env ps)

abbrev pub or_missing : List Text → Text → Outcome Error Text
or_missing [] text = ok text
or_missing (n ∷ ns) text = err (missing_variables (n ∷ ns))

unfoldable pub substitute : List (Text × Text) → (Text → Option Text) → Text → Outcome Error Text
substitute values env raw =
    let ps : List Piece = pieces zero raw in
    or_missing (missing_names values env ps) (filled_text values env ps)

substitutes :
    substitute ((codes "PORT", codes "3000") ∷ []) (λ _. none) (codes "u: ${PORT}/$x${}")
    ≡ ok (codes "u: 3000/$x${}")
unfolding substitute pieces variable_at filled_text missing_names value_of lookup text_eq
substitutes = refl

-- ===== src/Service/Naming.antt =====
-- slug, deriveName, and the choice of a preview's name in Service.Up.
use tailpreview.Base.{
  ℕ, Bool, true, false, ◌&&◌, ◌||◌, not, List, [], ◌∷◌, ◌++◌, leb, ◌==◌, if◌then◌else◌, ◌≡◌, refl,
}
use tailpreview.Base.Lists.{any, take}
use tailpreview.Base.Strings.{
  Text, codes, text_eq, is_empty, to_lower, trim_space, trim_left, trim_right, base,
}
use tailpreview.Base.Outcome.{Outcome, ok, err}
use tailpreview.Model.{Preview}
use tailpreview.Errors.{Error, plain}
use tailpreview.Config.{Resolved}
use tailpreview.Service.Select.{has_id}

abbrev pub is_slug_rune : ℕ → Bool
is_slug_rune r = (leb b'a' r && leb r b'z') || (leb b'0' r && leb r b'9')

-- The loop of `slug`: `last_dash`, and whether the builder holds anything yet.
unfoldable pub slug_runes : Bool → Bool → Text → Text
slug_runes last_dash started [] = []
slug_runes last_dash started (r ∷ s) = elim (is_slug_rune r) [
  | true ↦ r ∷ slug_runes false true s
  | false ↦ elim (not last_dash && started) [
    | true ↦ b'-' ∷ slug_runes true true s
    | false ↦ slug_runes last_dash started s
  ]
]

abbrev pub is_dash : ℕ → Bool
is_dash c = c == b'-'

unfoldable pub slug : Text → Text
unfolding slug_runes
slug value =
    trim_right is_dash (trim_left is_dash (slug_runes false false (to_lower (trim_space value))))

-- Both branches of deriveName return the last element of the path.
unfoldable pub derive_name : Text → Text
derive_name root = base root

abbrev pub first_of_names : Text → Text → Text → Text
first_of_names [] [] z = z
first_of_names [] (c ∷ y) z = c ∷ y
first_of_names (c ∷ x) y z = c ∷ x

-- Another preview of that name: the name gets the first six characters of the identifier.
unfoldable pub disambiguate : List Preview → Text → Text → Text
disambiguate ps id name =
    if any (λ p. not (has_id id p) && text_eq p.name name) ps
    then name ++ codes "-" ++ take 6 id
    else name

unfoldable pub choose_name : List Preview → Text → Text → Resolved → Outcome Error Text
choose_name ps id requested cfg =
    let name = slug (first_of_names requested cfg.name (derive_name cfg.project_root)) in
    if is_empty name
    then err (plain "preview name is empty after normalization")
    else ok (disambiguate ps id name)

slug_runs : slug (codes "  My_App (2) ") ≡ codes "my-app-2"
unfolding slug to_lower trim_space trim_left trim_right
slug_runs = refl

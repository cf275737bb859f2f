-- ===== src/Arguments/Sound.antt =====
-- What the values of flags mean once they are accepted.
use tailpreview.Base.{
  ◌≡◌, refl, sym, ap, ◌∙◌, subst, Bool, true, false, List, [], ◌∷◌, map, arith, if◌then◌else◌,
  Bool-cases, inl, inr,
}
use tailpreview.Base.Lists.{any}
use tailpreview.Base.Strings.{Text, text_eq, cut_last}
use tailpreview.Base.Outcome.{ok, Outcome-cases}
use tailpreview.Model.{Route, VerificationCheck}
use tailpreview.Url.{Net}
use tailpreview.Config.Upstream.{validate_verification_path}
use tailpreview.Config.Validate.{is_bad_range}
use tailpreview.Config.Sound.{IsCheck}
use tailpreview.Arguments.{
  checked_check, check_of, both_sides, parse_verification_check, apply_to, apply_route_booleans,
}

-- A check that is read from a flag is one that Validate accepts.
pub parse_verification_check-IsCheck :
    (net : Net) (value : Text) (c : VerificationCheck)
    → parse_verification_check net value ≡ ok c
    → IsCheck net c
unfolding parse_verification_check is_bad_range
parse_verification_check-IsCheck net value c =
    checked (check_of value (both_sides (cut_last b'=' value)))
  where
    checked : (d : VerificationCheck) → checked_check net d ≡ ok c → IsCheck net c
    checked d h = elim (Outcome-cases (validate_verification_path net d.path)) [
      | inl (tt, e) ↦
          let same : d ≡ c = ground arith in
          subst (IsCheck net) same (e, ground arith, ground arith, ground arith)
      | inr (x, e) ↦ absurd (ground arith)
    ]

module _ (f : Route → Route) where
  -- One route after all paths: changed exactly if its path is among them.
  abbrev pub changed : List Text → Route → Route
  changed paths r = if any (text_eq r.path) paths then f r else r

  -- Made twice, the change is as made once.
  abbrev pub IsFlag : Type 0
  IsFlag = (r : Route) → f (f r) ≡ f r

  twice : IsFlag → (r : Route) (b : Bool) → (if b then f (f r) else f r) ≡ f r
  twice k r true = k r
  twice k r false = refl

  changed_step :
      IsFlag
      → (p : Text) (ps : List Text) (r : Route)
      → changed ps (if text_eq r.path p then f r else r) ≡ changed (p ∷ ps) r
  changed_step k p ps r = elim (Bool-cases (text_eq r.path p)) [
    | inl e ↦ rw e (twice k r (any (text_eq (f r).path) ps))
    | inr e ↦ rw e refl
  ]

  map_step :
      IsFlag
      → (p : Text) (ps : List Text) (rs : List Route)
      → map (changed ps) (apply_to f p rs) ≡ map (changed (p ∷ ps)) rs
  unfolding apply_to
  map_step k p ps [] = refl
  map_step k p ps (r ∷ rs) =
      rw (changed_step k p ps r) (ap (◌∷◌ (changed (p ∷ ps) r)) (map_step k p ps rs))

  map_same : (rs : List Route) → map (changed []) rs ≡ rs
  map_same [] = refl
  map_same (r ∷ rs) = ap (◌∷◌ r) (map_same rs)

  -- Where the change is that of a flag, which may be made twice, a list of paths that is accepted
  -- changes exactly the routes whose path is in it, each once, and keeps their order.
  pub apply_route_booleans_lem :
      (paths : List Text) (rs rs' : List Route)
      → IsFlag
      → apply_route_booleans f paths rs ≡ ok rs'
      → rs' ≡ map (changed paths) rs
  unfolding apply_route_booleans
  apply_route_booleans_lem [] rs rs' k h = let same : rs ≡ rs' = cc in sym same ∙ sym (map_same rs)
  apply_route_booleans_lem (p ∷ ps) rs rs' k h =
      let rest : apply_route_booleans f ps (apply_to f p rs) ≡ ok rs' = ground arith in
      apply_route_booleans_lem ps (apply_to f p rs) rs' k rest ∙ map_step k p ps rs

-- ===== src/Cli/Merged/Parts.antt =====
-- The flags of `up` in cmd/tailpreview/main.go on routes, final checks and lifetimes.
use tailpreview.Base.{ℕ, ◌≡◌, ◌<◌, refl, sym, ap, subst, ◌∙◌, List, [], ◌∷◌, map, arith, inl, inr}
use tailpreview.Base.Strings.{Text}
use tailpreview.Base.Outcome.{ok, >>=_ok, Outcome-cases}
use tailpreview.Model.{Route, VerificationCheck}
use tailpreview.Url.{Net}
use tailpreview.Config.{Resolved}
use tailpreview.Config.Values.{parse_route}
use tailpreview.Config.Values.Printed.{printed_route, parse_route_iff-IsPlain}
use tailpreview.Config.Decode.{Yaml, parse_duration}
use tailpreview.Config.Sound.{IsCheck}
use tailpreview.Config.Load.{each}
use tailpreview.Arguments.{parse_verification_check, apply_route_booleans}
use tailpreview.Arguments.Sound.{changed, apply_route_booleans_lem}
use tailpreview.Arguments.Written.{IsValue, parse_verification_check-IsValue}
use tailpreview.Cli.Flags.{
  with_routes, catch_all_route, with_positional, strip, skip_verify, with_route_booleans,
  with_verify, with_lifetime,
}

-- The routes of the flags are written as they were given, the positional upstream takes every path,
-- and without both the routes are those of the file.
abbrev pub AreGiven : List Text → List Text → List Route → List Route → Type 0
AreGiven [] [] old new = new ≡ old
AreGiven [] (upstream ∷ more) old new = (new ≡ catch_all_route upstream ∷ []) × (more ≡ [])
AreGiven (raw ∷ raws) positional old new = (map printed_route new ≡ raw ∷ raws) × (positional ≡ [])

-- The final checks of the flags, one for each, are what is written and pass Validate.
abbrev pub AreValues : Net → List Text → List VerificationCheck → Type 0
AreValues net [] [] = Unit
AreValues net [] (_ ∷ _) = ⊥
AreValues net (_ ∷ _) [] = ⊥
AreValues net (raw ∷ raws) (c ∷ cs) = IsValue raw c × IsCheck net c × AreValues net raws cs

-- Without flags they are those of the file.
abbrev pub AreVerified : Net → List Text → List VerificationCheck → List VerificationCheck → Type 0
AreVerified net [] old new = new ≡ old
AreVerified net (raw ∷ raws) old new = AreValues net (raw ∷ raws) new

-- A lifetime of a flag is the positive duration that is written, and without a flag it is that of the
-- file.
abbrev pub IsLifetime : Yaml → Text → ℕ → ℕ → Type 0
IsLifetime yaml [] old new = new ≡ old
IsLifetime yaml (c ∷ s) old new = (yaml.parse_duration (c ∷ s) ≡ ok new) × (0 < new)

each-parse_route :
    (raws : List Text) (rs : List Route)
    → each parse_route raws ≡ ok rs
    → map printed_route rs ≡ raws
unfolding each
each-parse_route [] [] h = refl
each-parse_route [] (r ∷ rs) h = absurd (cc h)
each-parse_route (raw ∷ raws) rs h =
    let (r, e, h1) = >>=_ok (parse_route raw) _ rs h in
    let (more, f, h2) = >>=_ok (each parse_route raws) _ rs h1 in
    let same : r ∷ more ≡ rs = ground arith in
    subst (λ x. map printed_route x ≡ raw ∷ raws) same
      (ap (λ t. t ∷ map printed_route more) (sym ((parse_route_iff-IsPlain raw r).0 e).0)
        ∙ ap (◌∷◌ raw) (each-parse_route raws more f))

each-AreValues :
    (net : Net) (raws : List Text) (cs : List VerificationCheck)
    → each (parse_verification_check net) raws ≡ ok cs
    → AreValues net raws cs
unfolding each
each-AreValues net [] [] h = tt
each-AreValues net [] (c ∷ cs) h = absurd (cc h)
each-AreValues net (raw ∷ raws) cs h =
    let (c, e, h1) = >>=_ok (parse_verification_check net raw) _ cs h in
    let (more, f, h2) = >>=_ok (each (parse_verification_check net) raws) _ cs h1 in
    let same : c ∷ more ≡ cs = ground arith in
    let (written, good) = parse_verification_check-IsValue net raw c e in
    subst (AreValues net (raw ∷ raws)) same (written, good, each-AreValues net raws more f)

-- A configuration with other routes, health checks, or final checks, and otherwise the same.
abbrev pub with_new_routes : Resolved → List Route → Resolved
with_new_routes r routes = record r { routes = routes }

abbrev pub with_new_verify : Resolved → List VerificationCheck → Resolved
with_new_verify r cs = record r { verify = cs }

pub given_lem :
    (routes positional : List Text) (r a b : Resolved)
    → with_routes routes r ≡ ok a
    → with_positional positional routes a ≡ ok b
    → (rs : List Route) × AreGiven routes positional r.routes rs × b ≡ with_new_routes r rs
given_lem [] [] r a b h k = (r.routes, refl, ground arith)
given_lem [] (u ∷ []) r a b h k = (catch_all_route u ∷ [], (refl, refl), ground arith)
given_lem [] (u ∷ v ∷ us) r a b h k = absurd (cc k)
given_lem (raw ∷ raws) [] r a b h k =
    let (rs, e, h1) = >>=_ok (each parse_route (raw ∷ raws)) _ a h in
    (rs, (each-parse_route (raw ∷ raws) rs e, refl), ground arith)
given_lem (raw ∷ raws) (u ∷ []) r a b h k = absurd (cc k)
given_lem (raw ∷ raws) (u ∷ v ∷ us) r a b h k = absurd (cc k)

pub booleans_lem :
    (strips insecure : List Text) (r b : Resolved)
    → with_route_booleans strips insecure r ≡ ok b
    → b
      ≡ with_new_routes r (map (changed skip_verify insecure) (map (changed strip strips) r.routes))
unfolding with_route_booleans
booleans_lem strips insecure r b h =
    let (x, e, h1) = >>=_ok (apply_route_booleans strip strips r.routes) _ b h in
    let (y, f, h2) = >>=_ok (apply_route_booleans skip_verify insecure x) _ b h1 in
    let same : with_new_routes r y ≡ b = ground arith in
    sym same
    ∙ ap (with_new_routes r) (
        apply_route_booleans_lem skip_verify insecure x y (λ _. refl) f
        ∙ ap (map (changed skip_verify insecure))
            (apply_route_booleans_lem strip strips r.routes x (λ _. refl) e))

pub verify_lem :
    (net : Net) (raws : List Text) (r b : Resolved)
    → with_verify net raws r ≡ ok b
    → (cs : List VerificationCheck) × AreVerified net raws r.verify cs × b ≡ with_new_verify r cs
verify_lem net [] r b h = (r.verify, refl, ground arith)
verify_lem net (raw ∷ raws) r b h =
    let (cs, e, h1) = >>=_ok (each (parse_verification_check net) (raw ∷ raws)) _ b h in
    (cs, each-AreValues net (raw ∷ raws) cs e, ground arith)

parse_duration_lem :
    (yaml : Yaml) (s : Text) (d : ℕ)
    → parse_duration yaml s ≡ ok d
    → (yaml.parse_duration s ≡ ok d) × (0 < d)
unfolding parse_duration
parse_duration_lem yaml s d h = elim (Outcome-cases (yaml.parse_duration s)) [
  | inl (n, e) ↦ (ground arith, ground arith)
  | inr (x, e) ↦ absurd (ground arith)
]

pub lifetime_lem :
    (yaml : Yaml) (s : Text) (old new : ℕ)
    → with_lifetime yaml s old ≡ ok new
    → IsLifetime yaml s old new
lifetime_lem yaml [] old new h = ground arith
lifetime_lem yaml (c ∷ s) old new h = parse_duration_lem yaml (c ∷ s) new h

-- ===== src/Verification/Results.antt =====
-- The results that Verify collects.
use tailpreview.Base.{ℕ, ◌≡◌, refl, sym, ◌∙◌, false, Option, none, some, List, [], ◌∷◌, ◌++◌}
use mathlib.Core.List.{append-nil, append_assoc}
use tailpreview.Base.Lists.{All}
use tailpreview.Base.Strings.{Text}
use tailpreview.Base.Outcome.{Outcome, ok, err}
use tailpreview.Config.Upstream.{validate_verification_path}
use tailpreview.Model.{VerificationCheck, VerificationResult, VerificationReport}
use tailpreview.Url.{Url, Net, hostname, port}
use tailpreview.Errors.{Error}
use tailpreview.Verification.{Web, Trace}
use tailpreview.Verification.Origin.{same_origin-origin, effective_port}
use tailpreview.Verification.Attempt.{
  resolve_reference, timeout_of, on_request, on_path, verify_one,
}
use tailpreview.Verification.Run.{Verified, verify_all, on_result}
use tailpreview.Verification.SameOrigin.{IsSafe, IsSafeAction}
use tailpreview.Verification.Accepted.{Accepted, IsGoodEnd, attempts-IsGoodEnd}

-- url.Parse of a path that the verification accepts finds neither scheme, host nor credentials.
abbrev pub ParsesPaths : Net → Type 0
ParsesPaths net =
    (path : Text) (u : Url)
    → validate_verification_path net path ≡ ok tt
    → net.parse path ≡ some u
    → (u.scheme ≡ []) × (u.host ≡ []) × (u.user ≡ false)

-- The results of the checks, one for each and in order.
abbrev pub Pointwise :
    (VerificationCheck → VerificationResult → Type 0)
    → List VerificationCheck
    → List VerificationResult
    → Type 0
Pointwise R [] [] = Unit
Pointwise R [] (_ ∷ _) = ⊥
Pointwise R (_ ∷ _) [] = ⊥
Pointwise R (c ∷ cs) (x ∷ xs) = R c x × Pointwise R cs xs

module _ (net : Net) (web : Web) (base : Url) (paths : ParsesPaths net)
    (no_user : base.user ≡ false) where
  abbrev pub IsGoodCheck : VerificationCheck → Type 0
  IsGoodCheck c = validate_verification_path net c.path ≡ ok tt

  resolve_reference-IsSafe :
      (ref : Url)
      → (ref.scheme ≡ []) × (ref.host ≡ []) × (ref.user ≡ false)
      → IsSafe base (resolve_reference web base ref)
  unfolding resolve_reference hostname port effective_port
  resolve_reference-IsSafe ref (no_scheme, no_host, anonymous) =
      let u : Url = record base {
        path = web.resolve_path base.path ref.path;
        raw_query = ref.raw_query;
        fragment = ref.fragment;
      } in
      let here : IsSafe base u = ((same_origin-origin base u).1 refl, no_user) in
      rw no_scheme (rw no_host (rw anonymous here))

  verify_one-IsGoodEnd :
      (c : VerificationCheck) (timeout : ℕ) (h : Trace)
      → IsGoodCheck c
      → All (IsSafeAction base) h
      → IsGoodEnd net web base c (verify_one net web base c timeout h)
  unfolding verify_one
  verify_one-IsGoodEnd c timeout h good k = by_path (net.parse c.path) refl
    where
      by_request :
          (u : Url) (e : Option Text)
          → IsSafe base u
          → IsGoodEnd net web base c (on_request net web base c (timeout_of timeout) u h e)
      by_request u none s = attempts-IsGoodEnd net web base c _ _ u 0 h s k
      by_request u (some e) s = (tt, k)

      by_path :
          (ref : Option Url)
          → net.parse c.path ≡ ref
          → IsGoodEnd net web base c (on_path net web base c timeout h ref)
      by_path none e = (tt, k)
      by_path (some ref) e = by_request _ _ (resolve_reference-IsSafe ref (paths c.path ref good e))

  abbrev pub Accepts : VerificationCheck → VerificationResult → Type 0
  Accepts c x = Accepted net web base c x

  -- The results that a run adds to those before.
  abbrev pub IsReport :
      List VerificationCheck
      → List VerificationResult
      → Option (Outcome Error VerificationReport)
      → Type 0
  IsReport cs acc none = Unit
  IsReport cs acc (some (err _)) = Unit
  IsReport cs acc (some (ok r)) =
      (xs : List VerificationResult) × (r.checks ≡ acc ++ xs) × Pointwise Accepts cs xs

  abbrev pub IsGoodReport : List VerificationCheck → List VerificationResult → Verified → Type 0
  IsGoodReport cs acc r = IsReport cs acc r.0 × All (IsSafeAction base) r.1

  longer-IsReport :
      (c : VerificationCheck) (cs : List VerificationCheck) (acc : List VerificationResult)
      (x : VerificationResult) (r : Option (Outcome Error VerificationReport))
      → Accepts c x
      → IsReport cs (acc ++ x ∷ []) r
      → IsReport (c ∷ cs) acc r
  longer-IsReport c cs acc x none v m = tt
  longer-IsReport c cs acc x (some (err e)) v m = tt
  longer-IsReport c cs acc x (some (ok r)) v (xs, same, ps) =
      (x ∷ xs, same ∙ append_assoc acc (x ∷ []) xs, (v, ps))

  on_result-IsGoodReport :
      (c : VerificationCheck) (cs : List VerificationCheck) (acc : List VerificationResult)
      (next : List VerificationResult → Verified) (r : Option (Outcome Error VerificationResult))
      (h : Trace)
      → IsGoodEnd net web base c (r, h)
      → ((acc1 : List VerificationResult) → IsGoodReport cs acc1 (next acc1))
      → IsGoodReport (c ∷ cs) acc (on_result net web acc next (r, h))
  on_result-IsGoodReport c cs acc next none h g n = (tt, g.1)
  on_result-IsGoodReport c cs acc next (some (err e)) h g n = (tt, g.1)
  on_result-IsGoodReport c cs acc next (some (ok x)) h g n =
      let (m, k) = n (acc ++ x ∷ []) in (longer-IsReport c cs acc x _ g.0 m, k)

  pub verify_all-IsGoodReport :
      (cs : List VerificationCheck) (timeout : ℕ) (acc : List VerificationResult) (h : Trace)
      → All IsGoodCheck cs
      → All (IsSafeAction base) h
      → IsGoodReport cs acc (verify_all net web base timeout cs acc h)
  unfolding verify_all
  verify_all-IsGoodReport [] timeout acc h g k = (([], sym (append-nil acc), tt), k)
  verify_all-IsGoodReport (c ∷ cs) timeout acc h g k =
      let end = verify_one-IsGoodEnd c timeout h g.0 k in
      on_result-IsGoodReport c cs acc _ _ _ end
        (λ acc1. verify_all-IsGoodReport cs timeout acc1 _ g.1 end.1)

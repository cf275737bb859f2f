-- ===== src/Verification/Report.antt =====
-- What Verify promises to the service that calls it.
use tailpreview.Base.{
  ℕ, ◌≤◌, ◌<◌, ◌≡◌, true, false, Option, none, some, List, [], ◌∷◌, arith, Bool-cases, inl, inr,
}
use tailpreview.Base.Lists.{All, any, All-map}
use tailpreview.Base.Strings.{Text}
use tailpreview.Base.Outcome.{Outcome, ok, err, Outcome-cases}
use tailpreview.Config.{default_verify}
use tailpreview.Config.Validate.{is_bad_range}
use tailpreview.Config.Upstream.{validate_verification_path}
use tailpreview.Model.{VerificationCheck, VerificationResult, VerificationReport}
use tailpreview.Url.{Url, Net}
use tailpreview.Errors.{Error}
use tailpreview.Service.Select.{or_default}
use tailpreview.Verification.{Web}
use tailpreview.Verification.Attempt.{is_accepted}
use tailpreview.Verification.Run.{
  Verified, is_handoff_origin, is_bad_check, verify_checked, verify_url,
}
use tailpreview.Verification.SameOrigin.{IsSafeAction}
use tailpreview.Verification.Accepted.{Accepted}
use tailpreview.Verification.Results.{ParsesPaths, Pointwise, IsReport, verify_all-IsGoodReport}

-- The result answers the check from the origin of the base, with a status between 200 and 299.
abbrev pub Answers : Net → Web → Url → VerificationCheck → VerificationResult → Type 0
Answers net web base c x = Accepted net web base c x × (200 ≤ x.status_code) × (x.status_code < 300)

abbrev pub IsAnswered :
    Net → Web → Url → List VerificationCheck → Option (Outcome Error VerificationReport) → Type 0
IsAnswered net web base cs none = Unit
IsAnswered net web base cs (some (err _)) = Unit
IsAnswered net web base cs (some (ok r)) = Pointwise (Answers net web base) cs r.checks

module _ (net : Net) (web : Web) (base : Url) where
  abbrev IsFine : VerificationCheck → Type 0
  IsFine c = is_bad_check net web c ≡ false

  path_of_fine : (c : VerificationCheck) → IsFine c → validate_verification_path net c.path ≡ ok tt
  unfolding is_bad_check
  path_of_fine c h = elim (Outcome-cases (validate_verification_path net c.path)) [
    | inl (tt, e) ↦ e
    | inr (x, e) ↦ absurd (ground arith)
  ]

  Answers-of_fine :
      (c : VerificationCheck) (x : VerificationResult)
      → IsFine c
      → Accepted net web base c x
      → Answers net web base c x
  unfolding is_bad_check is_bad_range is_accepted
  Answers-of_fine c x f a = let ok = a.in_range in (a, ground arith, ground arith)

  All-IsFine : (cs : List VerificationCheck) → any (is_bad_check net web) cs ≡ false → All IsFine cs
  All-IsFine [] h = tt
  All-IsFine (c ∷ cs) h = ground (arith, All-IsFine cs)

  Pointwise-Answers :
      (cs : List VerificationCheck) (xs : List VerificationResult)
      → All IsFine cs
      → Pointwise (Accepted net web base) cs xs
      → Pointwise (Answers net web base) cs xs
  Pointwise-Answers [] [] f p = tt
  Pointwise-Answers [] (_ ∷ _) f p = p
  Pointwise-Answers (_ ∷ _) [] f p = p
  Pointwise-Answers (c ∷ cs) (x ∷ xs) f p =
      (Answers-of_fine c x f.0 p.0, Pointwise-Answers cs xs f.1 p.1)

  abbrev pub IsGoodRun : List VerificationCheck → Verified → Type 0
  IsGoodRun cs r = IsAnswered net web base cs r.0 × All (IsSafeAction base) r.1

  IsAnswered-IsReport :
      (paths : ParsesPaths net) (no_user : base.user ≡ false) (cs : List VerificationCheck)
      (r : Option (Outcome Error VerificationReport))
      → All IsFine cs
      → IsReport net web base paths no_user cs [] r
      → IsAnswered net web base cs r
  IsAnswered-IsReport paths no_user cs none f k = tt
  IsAnswered-IsReport paths no_user cs (some (err _)) f k = tt
  IsAnswered-IsReport paths no_user cs (some (ok r)) f (xs, same, p) =
      rw same (Pointwise-Answers cs xs f p)

  verify_checked-IsGoodRun :
      (paths : ParsesPaths net) (no_user : base.user ≡ false) (timeout : ℕ)
      (cs : List VerificationCheck)
      → IsGoodRun cs (verify_checked net web base timeout cs [])
  unfolding verify_checked
  verify_checked-IsGoodRun paths no_user timeout cs =
      elim (Bool-cases (any (is_bad_check net web) cs)) [
        | inl e ↦ rw e (tt, tt)
        | inr e ↦
            let fine = All-IsFine cs e in
            let (m, k) =
              verify_all-IsGoodReport net web base paths no_user cs timeout [] []
                (All-map IsFine _ cs path_of_fine fine) tt in
            rw e (IsAnswered-IsReport paths no_user cs _ fine m, k)
      ]

handoff_anonymous :
    (net : Net) (web : Web) (base : Url) → is_handoff_origin net web base ≡ true → base.user ≡ false
unfolding is_handoff_origin
handoff_anonymous net web base h = ground arith

-- Whatever the network answers, a verification sends requests only to the origin of the URL that it is
-- given, without credentials in the URL; and if it reports success, it has one result for each check, in
-- order (of the default check where there are none), for the path of that check, from a URL of that
-- origin, with a status in the range of the check, at least 200 and below 300. The condition is that
-- url.Parse finds neither scheme, host nor credentials in a path that passed its validation.
pub verify_url-IsGoodRun :
    (net : Net) (web : Web) (timeout : ℕ) (raw : Text) (checks : List VerificationCheck)
    (base : Url)
    → ParsesPaths net
    → net.parse raw ≡ some base
    → IsGoodRun net web base
        (or_default checks default_verify)
        (verify_url net web timeout raw checks [])
unfolding verify_url
verify_url-IsGoodRun net web timeout raw checks base paths parsed =
    rw parsed (elim (Bool-cases (is_handoff_origin net web base)) [
      | inl e ↦
          rw e (
            verify_checked-IsGoodRun net web base paths (handoff_anonymous net web base e) timeout
              _)
      | inr e ↦ rw e (tt, tt)
    ])

-- ===== src/Verification/Accepted.antt =====
-- What a verification that ends has done: its requests, and the result where it succeeded.
use tailpreview.Base.{
  ℕ, zero, suc, ◌≡◌, refl, true, Option, none, some, arith, Bool-cases, inl, inr,
}
use tailpreview.Base.Lists.{All}
use tailpreview.Base.Strings.{Text}
use tailpreview.Base.Outcome.{Outcome, ok, err}
use tailpreview.Model.{VerificationCheck, VerificationResult}
use tailpreview.Url.{Url, Net}
use tailpreview.Errors.{Error}
use tailpreview.Verification.{Web, Trace}
use tailpreview.Verification.Origin.{sanitized_origin}
use tailpreview.Verification.Redirect.{
  Fetched, Response, answered, refused, broken, max_verification_redirects,
}
use tailpreview.Verification.Attempt.{
  Ended, Verdict, done, again, is_accepted, judge_response, judge, on_stop, on_verdict, on_fetched,
  attempts,
}
use tailpreview.Verification.SameOrigin.{IsSafe, IsSafeAction, IsSafeAnswer, follow-IsSafe}

module _ (net : Net) (web : Web) (base : Url) (check : VerificationCheck) where
  -- The status is in the range of the check and no redirect, and the response came from the origin.
  pub record Accepted (x : VerificationResult) : Type 0 where
    pub path_checked : x.path ≡ check.path
    pub in_range : is_accepted net web base check x.status_code ≡ true
    pub url : Url
    pub url_safe : IsSafe base url
    pub from_url : x.final_origin ≡ sanitized_origin web url

  abbrev pub IsAccepted : Option (Outcome Error VerificationResult) → Type 0
  IsAccepted none = Unit
  IsAccepted (some (err _)) = Unit
  IsAccepted (some (ok x)) = Accepted x

  abbrev pub IsGoodEnd : Ended → Type 0
  IsGoodEnd r = IsAccepted r.0 × All (IsSafeAction base) r.1

  abbrev IsGoodVerdict : Verdict → Type 0
  IsGoodVerdict (done r) = IsAccepted (some r)
  IsGoodVerdict (again _) = Unit

  judge_response-IsGoodVerdict :
      (r : Response) → IsSafe base r.url → IsGoodVerdict (judge_response net web base check r)
  unfolding judge_response
  judge_response-IsGoodVerdict r s = elim (Bool-cases (is_accepted net web base check r.status)) [
    | inl e ↦
        let good : Accepted (record {
          path = check.path;
          status_code = r.status;
          final_origin = sanitized_origin web r.url;
        }) =
          record {
            path_checked = refl;
            in_range = e;
            url = r.url;
            url_safe = s;
            from_url = refl;
          } in
        ground (arith, good)
    | inr e ↦ ground arith
  ]

  judge-IsGoodVerdict :
      (last : ℕ) (e : Option Text) (f : Fetched)
      → IsSafeAnswer base (some f)
      → IsGoodVerdict (judge net web base check last e f)
  unfolding judge
  judge-IsGoodVerdict last e (answered r) s = judge_response-IsGoodVerdict r s
  judge-IsGoodVerdict last e (refused _) s = tt
  judge-IsGoodVerdict last none broken s = tt
  judge-IsGoodVerdict last (some e) broken s = tt

  module _ (deadline : ℕ) (next : ℕ → Ended) (h : Trace) (k : All (IsSafeAction base) h)
      (l : (n : ℕ) → IsGoodEnd (next n)) where
    on_stop-IsGoodEnd :
        (e : Option Text) (n : ℕ) → IsGoodEnd (on_stop net web base check e h (next n))
    on_stop-IsGoodEnd none n = l n
    on_stop-IsGoodEnd (some e) n = (tt, k)

    on_verdict-IsGoodEnd :
        (v : Verdict)
        → IsGoodVerdict v
        → IsGoodEnd (on_verdict net web base check deadline next h v)
    on_verdict-IsGoodEnd (done (ok x)) g = (g, k)
    on_verdict-IsGoodEnd (done (err e)) g = (tt, k)
    on_verdict-IsGoodEnd (again n) g = ground (arith, on_stop-IsGoodEnd (web.stopped h) n, k)

    on_fetched-IsGoodEnd :
        (last : ℕ) (r : Option Fetched)
        → IsSafeAnswer base r
        → IsGoodEnd (on_fetched net web base check deadline last next h r)
    on_fetched-IsGoodEnd last none s = (tt, k)
    on_fetched-IsGoodEnd last (some f) s =
        on_verdict-IsGoodEnd _ (judge-IsGoodVerdict last (web.cancelled h) f s)

  pub attempts-IsGoodEnd :
      (fuel deadline : ℕ) (u : Url) (last : ℕ) (h : Trace)
      → IsSafe base u
      → All (IsSafeAction base) h
      → IsGoodEnd (attempts net web base check fuel deadline u last h)
  unfolding attempts
  attempts-IsGoodEnd zero deadline u last h s k = (tt, k)
  attempts-IsGoodEnd (suc fuel) deadline u last h s k =
      let (a, t) = follow-IsSafe net web base check.path max_verification_redirects 0 u h s k in
      on_fetched-IsGoodEnd deadline _ _ t (λ n. attempts-IsGoodEnd fuel deadline u n _ s (tt, t))
        last _ a

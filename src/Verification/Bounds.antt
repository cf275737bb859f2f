-- ===== src/Verification/Bounds.antt =====
-- How many requests one attempt makes, and what the redirect policy lets pass.
use tailpreview.Base.{
  ℕ, zero, suc, ◌+◌, ◌≤◌, ◌<◌, ◌≡◌, ◌≢◌, ◌↔◌, refl, Bool, true, false, Option, none, some, [], ◌∷◌,
  arith, if◌then◌else◌,
}
use tailpreview.Base.Strings.{Text}
use tailpreview.Url.{Url, Net}
use tailpreview.Errors.{SafeHandoffError}
use tailpreview.Verification.{
  Web, Trace, requested, paused, Location, absent, unusable, target, Answer, failed, replied,
}
use tailpreview.Verification.Redirect.{
  Response, Fetched, answered, check_redirect, follow, on_policy, on_location, on_answer,
  is_redirect, max_verification_redirects,
}
use tailpreview.Verification.SameOrigin.{IsSafe}

abbrev pub requests : Trace → ℕ
requests [] = 0
requests (requested _ ∷ h) = suc (requests h)
requests (paused ∷ h) = requests h

module _ (net : Net) (web : Web) (base : Url) (path : Text) where
  -- A redirect is followed exactly when fewer than five requests came before it, it carries no
  -- credentials, and it stays at the origin of the base.
  pub check_redirect_iff-IsSafe :
      (via : ℕ) (u : Url)
      → (check_redirect net web base path via u ≡ none) ↔ ((via < 5) × IsSafe base u)
  unfolding check_redirect
  check_redirect_iff-IsSafe via u = (
    λ h. (ground arith, (ground arith, ground arith)),
    λ h. let a = h.0 in let b = h.1.0 in let c = h.1.1 in ground arith,
  )

  -- An attempt is over, after at most `n` more requests.
  abbrev pub IsOver : ℕ → Trace → Option Fetched × Trace → Type 0
  IsOver n h r = (r.0 ≢ none) × (requests r.1 ≤ n + requests h)

  on_policy-IsOver :
      (n : ℕ) (e : Option SafeHandoffError) (h : Trace) (rest : Option Fetched × Trace)
      → (e ≡ none → IsOver n h rest)
      → IsOver n h (on_policy net web base path e h rest)
  on_policy-IsOver n (some e) h rest k = (λ p. cc, omega arith)
  on_policy-IsOver n none h rest k = k refl

  module _ (n via : ℕ) (next : Url → Option Fetched × Trace) (h : Trace)
      (k : (v : Url) → suc via < 5 → IsOver n h (next v)) where
    on_location-IsOver :
        (r : Response) (l : Location) → IsOver n h (on_location net web base path next via r h l)
    on_location-IsOver r absent = (λ p. cc, omega arith)
    on_location-IsOver r unusable = (λ p. cc, omega arith)
    on_location-IsOver r (target v) =
        on_policy-IsOver n _ h _ λ e. k v ((check_redirect_iff-IsSafe (suc via) v).0 e).0

    on_answer-IsOver :
        (u : Url) (a : Answer) → IsOver n h (on_answer net web base path next via u h a)
    on_answer-IsOver u failed = (λ p. cc, omega arith)
    on_answer-IsOver u (replied status l) = if_over (is_redirect net web base path status)
      where
        if_over :
            (b : Bool)
            → IsOver n h (
                if b
                then on_location net web base path next via
                    (record { status = status; url = u })
                    h
                    l
                else (some (answered (record { status = status; url = u })), h))
        if_over true = on_location-IsOver _ l
        if_over false = (λ p. cc, omega arith)

  follow-IsOver :
      (fuel via : ℕ) (u : Url) (h : Trace)
      → via < 5
      → 5 ≤ fuel + via
      → IsOver fuel h (follow net web base path fuel via u h)
  unfolding follow
  follow-IsOver zero via u h l m = absurd (omega arith)
  follow-IsOver (suc fuel) via u h l m =
      let over =
        on_answer-IsOver fuel via _ (requested u ∷ h)
          (λ v l1. follow-IsOver fuel (suc via) v _ l1 (omega arith)) u (web.get h u) in
      (over.0, omega (arith, over.1))

  -- One attempt ends, and makes at most five requests, the first included, whatever the network answers.
  pub follow_ends :
      (u : Url) (h : Trace) → IsOver 5 h (follow net web base path max_verification_redirects 0 u h)
  follow_ends u h = follow-IsOver 5 0 u h (omega arith) (omega arith)

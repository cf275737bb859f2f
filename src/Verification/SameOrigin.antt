-- ===== src/Verification/SameOrigin.antt =====
-- Every request of the final verification goes to the origin of the final URL.
use tailpreview.Base.{
  ℕ, zero, suc, ◌≡◌, refl, Bool, true, false, Option, none, some, arith, if◌then◌else◌,
}
use tailpreview.Base.Lists.{All}
use tailpreview.Base.Strings.{Text}
use tailpreview.Url.{Url, Net}
use tailpreview.Errors.{SafeHandoffError}
use tailpreview.Verification.{
  Web, Trace, Action, requested, paused, Location, absent, unusable, target, Answer, failed,
  replied,
}
use tailpreview.Verification.Origin.{same_origin}
use tailpreview.Verification.Redirect.{
  Response, Fetched, answered, refused, broken, check_redirect, follow, on_policy, on_location,
  on_answer, is_redirect,
}

-- The URL has the origin of the base and carries no credentials.
abbrev pub IsSafe : Url → Url → Type 0
IsSafe base u = (same_origin base u ≡ true) × (u.user ≡ false)

abbrev pub IsSafeAction : Url → Action → Type 0
IsSafeAction base (requested u) = IsSafe base u
IsSafeAction base paused = Unit

abbrev pub IsSafeAnswer : Url → Option Fetched → Type 0
IsSafeAnswer base none = Unit
IsSafeAnswer base (some (answered r)) = IsSafe base r.url
IsSafeAnswer base (some (refused _)) = Unit
IsSafeAnswer base (some broken) = Unit

module _ (net : Net) (web : Web) (base : Url) (path : Text) where
  pub check_redirect-IsSafe :
      (via : ℕ) (u : Url) → check_redirect net web base path via u ≡ none → IsSafe base u
  unfolding check_redirect
  check_redirect-IsSafe via u h = (ground arith, ground arith)

  abbrev IsSafeEnd : Option Fetched × Trace → Type 0
  IsSafeEnd r = IsSafeAnswer base r.0 × All (IsSafeAction base) r.1

  on_policy-IsSafe :
      (e : Option SafeHandoffError) (h : Trace) (rest : Option Fetched × Trace)
      → All (IsSafeAction base) h
      → (e ≡ none → IsSafeEnd rest)
      → IsSafeEnd (on_policy net web base path e h rest)
  on_policy-IsSafe (some e) h rest k l = (tt, k)
  on_policy-IsSafe none h rest k l = l refl

  module _ (next : Url → Option Fetched × Trace)
      (next-IsSafe : (v : Url) → IsSafe base v → IsSafeEnd (next v)) where
    on_location-IsSafe :
        (via : ℕ) (r : Response) (h : Trace) (l : Location)
        → IsSafe base r.url
        → All (IsSafeAction base) h
        → IsSafeEnd (on_location net web base path next via r h l)
    on_location-IsSafe via r h absent s k = (s, k)
    on_location-IsSafe via r h unusable s k = (tt, k)
    on_location-IsSafe via r h (target v) s k =
        on_policy-IsSafe (check_redirect net web base path (suc via) v) h (next v) k
          (λ e. next-IsSafe v (check_redirect-IsSafe (suc via) v e))

    on_answer-IsSafe :
        (via : ℕ) (u : Url) (h : Trace) (a : Answer)
        → IsSafe base u
        → All (IsSafeAction base) h
        → IsSafeEnd (on_answer net web base path next via u h a)
    on_answer-IsSafe via u h failed s k = (tt, k)
    on_answer-IsSafe via u h (replied status l) s k = if_safe (is_redirect net web base path status)
      where
        if_safe :
            (b : Bool)
            → IsSafeEnd (
                if b
                then on_location net web base path next via
                    (record { status = status; url = u })
                    h
                    l
                else (some (answered (record { status = status; url = u })), h))
        if_safe true = on_location-IsSafe via _ h l s k
        if_safe false = (s, k)

  pub follow-IsSafe :
      (fuel via : ℕ) (u : Url) (h : Trace)
      → IsSafe base u
      → All (IsSafeAction base) h
      → IsSafeEnd (follow net web base path fuel via u h)
  unfolding follow
  follow-IsSafe zero via u h s k = (tt, k)
  follow-IsSafe (suc fuel) via u h s k =
      on_answer-IsSafe _ (λ v t. follow-IsSafe fuel (suc via) v _ t (s, k)) via u _ (web.get h u) s
        (s, k)

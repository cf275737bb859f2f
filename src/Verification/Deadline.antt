-- ===== src/Verification/Deadline.antt =====
-- The loop of verifyOne ends: the clock passes the deadline before the fuel runs out.
use tailpreview.Base.{
  ℕ, zero, suc, ◌+◌, ◌*◌, ◌/◌, ◌≤◌, ◌<◌, ◌≢◌, refl, Bool, true, false, Option, none, some, List, [],
  ◌∷◌, arith, ltb, if◌then◌else◌, Bool-cases, Option-cases, inl, inr, ◌++◌,
}
use tailpreview.Base.Strings.{Text}
use tailpreview.Base.Outcome.{ok, err}
use tailpreview.Model.{VerificationCheck, VerificationResult}
use tailpreview.Url.{Url, Net}
use tailpreview.Errors.{SafeHandoffError}
use tailpreview.Verification.{
  Web, Trace, Action, requested, paused, Location, absent, unusable, target, Answer, failed,
  replied,
}
use tailpreview.Verification.Redirect.{
  Fetched, answered, follow, on_policy, on_location, on_answer, is_redirect,
  max_verification_redirects,
}
use tailpreview.Verification.Attempt.{
  Ended, Verdict, done, again, pause, judge, on_stop, on_verdict, on_fetched, attempts, on_request,
  on_path, enough_attempts, timeout_of, verify_one,
}
use tailpreview.Base.Lists.{any}
use tailpreview.Verification.Run.{
  Verified, is_handoff_origin, is_bad_check, on_result, verify_all, verify_checked, verify_url,
}
use tailpreview.Verification.Bounds.{follow_ends}

-- A clock that never goes back, and goes on by a pause at least in a pause.
pub record Ticks (web : Web) : Type 0 where
  pub forward : (a : Action) (h : Trace) → web.now h ≤ web.now (a ∷ h)
  pub pauses : (h : Trace) → web.now h + pause ≤ web.now (paused ∷ h)

module _ (net : Net) (web : Web) (ticks : Ticks web) where
  module _ (base : Url) (path : Text) where
    on_policy_later :
        (t : ℕ) (e : Option SafeHandoffError) (h : Trace) (rest : Option Fetched × Trace)
        → t ≤ web.now h
        → t ≤ web.now rest.1
        → t ≤ web.now (on_policy net web base path e h rest).1
    on_policy_later t (some e) h rest k l = k
    on_policy_later t none h rest k l = l

    on_answer_later :
        (t via : ℕ) (next : Url → Option Fetched × Trace) (u : Url) (h : Trace) (a : Answer)
        → t ≤ web.now h
        → ((v : Url) → t ≤ web.now (next v).1)
        → t ≤ web.now (on_answer net web base path next via u h a).1
    on_answer_later t via next u h failed k l = k
    on_answer_later t via next u h (replied status loc) k l =
        if_later (is_redirect net web base path status) loc
      where
        if_later :
            (b : Bool) (loc : Location)
            → t
              ≤ web.now
                  (if b
                    then on_location net web base path next via
                        (record { status = status; url = u })
                        h
                        loc
                    else (some (answered (record { status = status; url = u })), h)).1
        if_later false loc = k
        if_later true absent = k
        if_later true unusable = k
        if_later true (target v) = on_policy_later t _ h _ k (l v)

    follow_later :
        (fuel via : ℕ) (u : Url) (h : Trace) (t : ℕ)
        → t ≤ web.now h
        → t ≤ web.now (follow net web base path fuel via u h).1
    unfolding follow
    follow_later zero via u h t k = k
    follow_later (suc fuel) via u h t k =
        let later : t ≤ web.now (requested u ∷ h) =
          omega (arith, ticks.forward (requested u) h, k) in
        on_answer_later t via _ u _ (web.get h u) later
          (λ v. follow_later fuel (suc via) v _ t later)

  module _ (base : Url) (check : VerificationCheck) where
    on_stop_ends :
        (e : Option Text) (h : Trace) (rest : Ended)
        → rest.0 ≢ none
        → (on_stop net web base check e h rest).0 ≢ none
    on_stop_ends none h rest k = k
    on_stop_ends (some e) h rest k = λ p. cc

    on_fetched_ends :
        (deadline last : ℕ) (next : ℕ → Ended) (h : Trace) (r : Option Fetched)
        → r ≢ none
        → (web.now h ≤ deadline → (n : ℕ) → (next n).0 ≢ none)
        → (on_fetched net web base check deadline last next h r).0 ≢ none
    on_fetched_ends deadline last next h none k l = λ p. k refl
    on_fetched_ends deadline last next h (some f) k l =
        by_verdict (judge net web base check last (web.cancelled h) f)
      where
        by_clock : (n : ℕ) → (on_verdict net web base check deadline next h (again n)).0 ≢ none
        by_clock n = elim (Bool-cases (ltb deadline (web.now h))) [
          | inl e ↦ rw e (λ p. cc)
          | inr e ↦ rw e (on_stop_ends (web.stopped h) h (next n) (l (ground arith) n))
        ]

        by_verdict : (v : Verdict) → (on_verdict net web base check deadline next h v).0 ≢ none
        by_verdict (done r) = λ p. cc
        by_verdict (again n) = by_clock n

    attempts_end :
        (rounds deadline : ℕ) (u : Url) (last : ℕ) (h : Trace)
        → deadline < web.now h + rounds * pause
        → (attempts net web base check (suc rounds) deadline u last h).0 ≢ none
    unfolding attempts
    attempts_end zero deadline u last h k =
        let later =
          follow_later base check.path max_verification_redirects 0 u h (web.now h) (omega arith) in
        on_fetched_ends deadline last _ _ _ (follow_ends net web base check.path u h).0
          (λ m. absurd (omega (arith, later, m, k)))
    attempts_end (suc rounds) deadline u last h k =
        let later =
          follow_later base check.path max_verification_redirects 0 u h (web.now h) (omega arith) in
        on_fetched_ends deadline last _ _ _ (follow_ends net web base check.path u h).0
          (λ m n. attempts_end rounds deadline u n _ (omega (arith, later, ticks.pauses _, k)))

    on_request_ends :
        (timeout : ℕ) (u : Url) (h : Trace) (e : Option Text)
        → (on_request net web base check timeout u h e).0 ≢ none
    unfolding enough_attempts
    on_request_ends timeout u h (some e) = λ p. cc
    on_request_ends timeout u h none =
        attempts_end (suc (timeout / pause)) (web.now h + timeout) u 0 h (omega arith)

    on_path_ends :
        (timeout : ℕ) (h : Trace) (ref : Option Url)
        → (on_path net web base check timeout h ref).0 ≢ none
    on_path_ends timeout h none = λ p. cc
    on_path_ends timeout h (some ref) =
        on_request_ends (timeout_of timeout) _ h (web.request_error _)

    pub verify_one_ends :
        (timeout : ℕ) (h : Trace) → (verify_one net web base check timeout h).0 ≢ none
    unfolding verify_one
    verify_one_ends timeout h = on_path_ends timeout h (net.parse check.path)

  on_result_ends :
      (acc : List VerificationResult) (next : List VerificationResult → Verified) (r : Ended)
      → r.0 ≢ none
      → ((xs : List VerificationResult) → (next xs).0 ≢ none)
      → (on_result net web acc next r).0 ≢ none
  on_result_ends acc next (none, h) k l = λ p. k refl
  on_result_ends acc next (some (err e), h) k l = λ p. cc
  on_result_ends acc next (some (ok x), h) k l = l (acc ++ x ∷ [])

  verify_all_ends :
      (base : Url) (timeout : ℕ) (cs : List VerificationCheck) (acc : List VerificationResult)
      (h : Trace)
      → (verify_all net web base timeout cs acc h).0 ≢ none
  unfolding verify_all
  verify_all_ends base timeout [] acc h = λ p. cc
  verify_all_ends base timeout (c ∷ cs) acc h =
      let r = verify_one net web base c timeout h in
      on_result_ends acc (λ xs. verify_all net web base timeout cs xs r.1) r
        (verify_one_ends base c timeout h) (λ xs. verify_all_ends base timeout cs xs r.1)

  verify_checked_ends :
      (base : Url) (timeout : ℕ) (cs : List VerificationCheck) (h : Trace)
      → (verify_checked net web base timeout cs h).0 ≢ none
  unfolding verify_checked
  verify_checked_ends base timeout cs h = elim (Bool-cases (any (is_bad_check net web) cs)) [
    | inl e ↦ rw e (λ p. cc)
    | inr e ↦ rw e (verify_all_ends base timeout cs [] h)
  ]

  -- A verification always ends: if the clock never goes back, and goes on by a pause at least in each
  -- pause, the attempts that the timeout leaves room for are enough for every check, whatever the
  -- network answers and however it redirects.
  pub verify_url_ends :
      (timeout : ℕ) (raw : Text) (checks : List VerificationCheck) (h : Trace)
      → (verify_url net web timeout raw checks h).0 ≢ none
  unfolding verify_url
  verify_url_ends timeout raw checks h = elim (Option-cases (net.parse raw)) [
    | inl e ↦ rw e (λ p. cc)
    | inr (base, e) ↦ rw e (elim (Bool-cases (is_handoff_origin net web base)) [
      | inl f ↦ rw f (verify_checked_ends base timeout _ h)
      | inr f ↦ rw f (λ p. cc)
    ])
  ]

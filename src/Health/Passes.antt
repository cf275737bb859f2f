-- ===== src/Health/Passes.antt =====
-- When Wait of internal/health/health.go returns nil, by the rounds that it makes.
use tailpreview.Base.{
  ℕ, zero, suc, ◌+◌, ◌≤◌, ◌≡◌, ◌≢◌, ◌↔◌, refl, sym, subst, ◌∙◌, if◌then◌else◌, Bool, true, false,
  Option, none, some, List, [], ◌∷◌, ltb, arith,
}
use tailpreview.Base.Strings.{Text}
use tailpreview.Model.{HealthCheck}
use tailpreview.Health.{Steps, Site, HealthError, probed, paused}
use tailpreview.Health.Check.{
  wait_timeout, round, did_not_pass, Waited, on_stopped, on_round, rounds, wait_healthy,
}
use tailpreview.Health.Wait.{AllHealthy, round-AllHealthy, AllHealthy-round}
use tailpreview.Health.Ends.{Ticks, wait_healthy_ends}

-- The steps after each check was asked once.
abbrev pub after_round : List HealthCheck → Steps → Steps
after_round [] h = h
after_round (c ∷ cs) h = after_round cs (probed c ∷ h)

module _ (site : Site) (deadline : ℕ) (cs : List HealthCheck) where
  -- The rounds from these steps on end with one in which every required check finds its service
  -- healthy: this one, or one after a pause, if this one ends by the deadline and the context is not
  -- cancelled then.
  pub data Passes : Steps → Type 0 where
    passed : {h : Steps} → AllHealthy site h cs → Passes h
    later :
        {h : Steps}
        → (AllHealthy site h cs → ⊥)
        → site.now (after_round cs h) ≤ deadline
        → site.stopped (after_round cs h) ≡ none
        → Passes (paused ∷ after_round cs h)
        → Passes h

after_round_lem :
    (site : Site) (cs : List HealthCheck) (last : List HealthError) (b : Bool) (h : Steps)
    → (round site cs last b h).2 ≡ after_round cs h
unfolding round
after_round_lem site [] last b h = refl
after_round_lem site (c ∷ cs) last b h = after_round_lem site cs _ _ (probed c ∷ h)

module _ (site : Site) (deadline : ℕ) (cs : List HealthCheck) where
  -- A round that ends in nil.
  on_round-Passes :
      (next : Steps → Waited site) (h : Steps) (r : List HealthError × Bool × Steps)
      → (r.1 ≡ true → AllHealthy site h cs)
      → (AllHealthy site h cs → r.1 ≡ true)
      → r.2 ≡ after_round cs h
      → (next (paused ∷ after_round cs h) ≡ some none
          → Passes site deadline cs (paused ∷ after_round cs h))
      → on_round site deadline next r ≡ some none
      → Passes site deadline cs h
  on_round-Passes next h (last, true, g) k l e m p = passed (k refl)
  on_round-Passes next h (last, false, g) k l e m p =
      by_deadline (ltb deadline (site.now g)) (site.stopped g) refl refl p
    where
      by_deadline :
          (d : Bool) (o : Option Text)
          → ltb deadline (site.now g) ≡ d
          → site.stopped g ≡ o
          → (if d then some (some (did_not_pass last)) else on_stopped site o (next (paused ∷ g)))
            ≡ some none
          → Passes site deadline cs h
      by_deadline true o q t n = absurd (cc n)
      by_deadline false (some x) q t n = absurd (cc n)
      by_deadline false none q t n =
          later (λ a. cc (l a)) (subst (λ x. site.now x ≤ deadline) e (ground arith))
            (subst (λ x. site.stopped x ≡ none) e t)
            (m (subst (λ x. next (paused ∷ x) ≡ some none) e n))

  rounds-Passes :
      (fuel : ℕ) (h : Steps)
      → rounds site fuel deadline cs h ≡ some none
      → Passes site deadline cs h
  unfolding rounds
  rounds-Passes zero h p = absurd (cc p)
  rounds-Passes (suc fuel) h p =
      on_round-Passes (rounds site fuel deadline cs) h (round site cs [] true h)
        (λ q. (round-AllHealthy site cs [] true h q).1) (AllHealthy-round site cs [] true h refl)
        (after_round_lem site cs [] true h) (rounds-Passes fuel (paused ∷ after_round cs h)) p

  pass_now :
      (next : Steps → Waited site) (r : List HealthError × Bool × Steps)
      → r.1 ≡ true
      → on_round site deadline next r ≡ some none
  pass_now next (last, true, g) e = refl
  pass_now next (last, false, g) e = absurd (cc e)

  pass_later :
      (next : Steps → Waited site) (h : Steps) (r : List HealthError × Bool × Steps)
      → (r.1 ≡ true → ⊥)
      → r.2 ≡ h
      → site.now h ≤ deadline
      → site.stopped h ≡ none
      → on_round site deadline next r ≡ next (paused ∷ h)
  pass_later next h (last, true, g) k e n o = absurd (k refl)
  pass_later next h (last, false, g) k e n o =
      let early : ltb deadline (site.now g) ≡ false =
        subst (λ x. ltb deadline (site.now x) ≡ false) (sym e) (ground arith) in
      let running : site.stopped g ≡ none = subst (λ x. site.stopped x ≡ none) (sym e) o in
      rw (early, running) (subst (λ x. next (paused ∷ g) ≡ next (paused ∷ x)) e refl)

  Passes-rounds :
      (fuel : ℕ) (h : Steps)
      → Passes site deadline cs h
      → rounds site fuel deadline cs h ≢ none
      → rounds site fuel deadline cs h ≡ some none
  unfolding rounds
  Passes-rounds zero h p e = absurd (e refl)
  Passes-rounds (suc fuel) h (passed a) e =
      pass_now (rounds site fuel deadline cs) (round site cs [] true h)
        (AllHealthy-round site cs [] true h refl a)
  Passes-rounds (suc fuel) h (later a n o p) e =
      let step =
        pass_later (rounds site fuel deadline cs) (after_round cs h) (round site cs [] true h)
          (λ q. a (round-AllHealthy site cs [] true h q).1) (after_round_lem site cs [] true h) n
          o in
      step ∙ Passes-rounds fuel _ p (subst (λ x. x ≢ none) step e)

-- If the clock never goes back, and goes on by a pause at least in each pause, Wait always returns. It
-- returns nil exactly when, asked round by round from its start on, every required check finds its
-- service healthy in some round, and each round before it ended by the deadline and without the context
-- cancelled; otherwise it returns an error.
pub wait_healthy_iff-Passes :
    (site : Site)
    → Ticks site
    → (timeout : ℕ) (cs : List HealthCheck) (h : Steps)
    → (wait_healthy site timeout cs h ≢ none)
      × ((wait_healthy site timeout cs h ≡ some none)
          ↔ Passes site (site.now h + wait_timeout timeout) cs h)
unfolding wait_healthy
wait_healthy_iff-Passes site ticks timeout [] h =
    (wait_healthy_ends site ticks timeout [] h, ((λ _. passed tt), (λ _. refl)))
wait_healthy_iff-Passes site ticks timeout (c ∷ cs) h =
    let ends = wait_healthy_ends site ticks timeout (c ∷ cs) h in
    (ends, (rounds-Passes site _ (c ∷ cs) _ h, (λ p. Passes-rounds site _ (c ∷ cs) _ h p ends)))

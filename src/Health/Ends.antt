-- ===== src/Health/Ends.antt =====
-- Wait ends.
use tailpreview.Base.{
  ℕ, zero, suc, ◌+◌, ◌*◌, ◌/◌, ◌≤◌, ◌<◌, ◌≢◌, inl, inr, Bool, true, false, Option, none, some, List,
  [], ◌∷◌, ltb, arith, Bool-cases,
}
use tailpreview.Base.Strings.{Text}
use tailpreview.Model.{HealthCheck}
use tailpreview.Health.{Step, Steps, Site, HealthError, probed, paused}
use tailpreview.Health.Check.{
  round_pause, wait_timeout, one, add_failure, still_healthy, round, Waited, on_stopped, on_round,
  rounds, wait_healthy,
}

-- A clock that never goes back, and goes on by a pause at least in a pause.
pub record Ticks (site : Site) : Type 0 where
  pub forward : (a : Step) (h : Steps) → site.now h ≤ site.now (a ∷ h)
  pub pauses : (h : Steps) → site.now h + round_pause ≤ site.now (paused ∷ h)

module _ (site : Site) (ticks : Ticks site) where
  round_later :
      (cs : List HealthCheck) (last : List HealthError) (b : Bool) (h : Steps)
      → site.now h ≤ site.now (round site cs last b h).2
  unfolding round
  round_later [] last b h = omega arith
  round_later (c ∷ cs) last b h = omega (
    arith,
    ticks.forward (probed c) h,
    round_later cs (add_failure site true (one site h c) last)
        (still_healthy site b c.required (one site h c)) (probed c ∷ h),
  )

  on_round_ends :
      (deadline : ℕ) (next : Steps → Waited site) (r : List HealthError × Bool × Steps)
      → (site.now r.2 ≤ deadline → next (paused ∷ r.2) ≢ none)
      → on_round site deadline next r ≢ none
  on_round_ends deadline next (last, true, h) k = λ p. cc
  on_round_ends deadline next (last, false, h) k = elim (Bool-cases (ltb deadline (site.now h))) [
    | inl e ↦ rw e (λ p. cc)
    | inr e ↦ rw e (on_stop (site.stopped h) (k (ground arith)))
  ]
    where
      on_stop :
          (o : Option Text)
          → next (paused ∷ h) ≢ none
          → on_stopped site o (next (paused ∷ h)) ≢ none
      on_stop none l = l
      on_stop (some x) l = λ p. cc

  rounds_end :
      (left deadline : ℕ) (cs : List HealthCheck) (h : Steps)
      → deadline < site.now h + left * round_pause
      → rounds site (suc left) deadline cs h ≢ none
  unfolding rounds
  rounds_end zero deadline cs h k =
      on_round_ends deadline (rounds site 0 deadline cs) (round site cs [] true h)
        (λ m. absurd (omega (arith, round_later cs [] true h, m, k)))
  rounds_end (suc left) deadline cs h k =
      on_round_ends deadline (rounds site (suc left) deadline cs) (round site cs [] true h) (λ m.
        rounds_end left deadline cs _
          (omega (arith, round_later cs [] true h, ticks.pauses (round site cs [] true h).2, k)))

  pub wait_healthy_ends :
      (timeout : ℕ) (cs : List HealthCheck) (h : Steps) → wait_healthy site timeout cs h ≢ none
  unfolding wait_healthy
  wait_healthy_ends timeout [] h = λ p. cc
  wait_healthy_ends timeout (c ∷ cs) h =
      rounds_end (suc (wait_timeout timeout / round_pause)) (site.now h + wait_timeout timeout)
        (c ∷ cs) h (omega arith)

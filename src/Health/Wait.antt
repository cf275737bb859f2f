-- ===== src/Health/Wait.antt =====
-- What CheckOnce and Wait promise.
use tailpreview.Base.{
  ◌≡◌, ◌↔◌, refl, Bool, true, false, Option, none, some, List, [], ◌∷◌, ◌++◌, arith,
}
use tailpreview.Model.{HealthCheck}
use tailpreview.Health.{Steps, Site, HealthError, probed}
use tailpreview.Health.Check.{
  one, add_failure, failures_once, nil_or_failed, check_all_once, still_healthy, round,
}

module _ (site : Site) where
  -- Asked one after the other, every required check finds its service healthy.
  abbrev pub AllHealthy : Steps → List HealthCheck → Type 0
  AllHealthy h [] = Unit
  AllHealthy h (c ∷ cs) = (c.required ≡ true → one site h c ≡ none) × AllHealthy (probed c ∷ h) cs

  failures_nonempty : (acc : List HealthError) (e : HealthError) → (acc ++ e ∷ [] ≡ []) → ⊥
  failures_nonempty [] e p = cc
  failures_nonempty (x ∷ xs) e p = cc

  nil_or_failed_iff : (es : List HealthError) → (nil_or_failed site es ≡ none) ↔ (es ≡ [])
  nil_or_failed_iff [] = (λ p. refl, λ p. refl)
  nil_or_failed_iff (e ∷ es) = (λ p. absurd (cc p), λ p. absurd (cc p))

  -- No failure is added exactly where a required check passes.
  add_failure_iff :
      (required : Bool) (o : Option HealthError) (acc : List HealthError)
      → (add_failure site required o acc ≡ []) ↔ ((acc ≡ []) × (required ≡ true → o ≡ none))
  add_failure_iff required none acc = (λ p. (p, λ q. refl), λ p. p.0)
  add_failure_iff true (some e) acc =
      (λ p. absurd (failures_nonempty acc e p), λ p. absurd (cc (p.1 refl)))
  add_failure_iff false (some e) acc = (λ p. (p, λ q. absurd (cc q)), λ p. p.0)

  failures_once_iff-AllHealthy :
      (cs : List HealthCheck) (h : Steps) (acc : List HealthError)
      → (failures_once site h cs acc ≡ []) ↔ ((acc ≡ []) × AllHealthy h cs)
  unfolding failures_once
  failures_once_iff-AllHealthy [] h acc = (λ p. (p, tt), λ p. p.0)
  failures_once_iff-AllHealthy (c ∷ cs) h acc =
      let later =
        failures_once_iff-AllHealthy cs (probed c ∷ h)
          (add_failure site c.required (one site h c) acc) in
      let this = add_failure_iff c.required (one site h c) acc in
      (
        λ p. let (a, b) = later.0 p in let (d, e) = this.0 a in (d, (e, b)),
        λ (d, (e, b)). later.1 (this.1 (d, e), b),
      )

  -- CheckOnce returns nil exactly when, asked one after the other, every required check finds its
  -- service healthy.
  pub check_all_once_iff-AllHealthy :
      (h : Steps) (cs : List HealthCheck) → (check_all_once site h cs ≡ none) ↔ AllHealthy h cs
  unfolding check_all_once
  check_all_once_iff-AllHealthy h cs =
      let nil = nil_or_failed_iff (failures_once site h cs []) in
      let all = failures_once_iff-AllHealthy cs h [] in
      (λ p. (all.0 (nil.0 p)).1, λ p. nil.1 (all.1 (refl, p)))

  still_healthy_lem :
      (b required : Bool) (o : Option HealthError)
      → still_healthy site b required o ≡ true
      → (b ≡ true) × (required ≡ true → o ≡ none)
  still_healthy_lem b required none p = (p, λ q. refl)
  still_healthy_lem b required (some e) p = (ground arith, λ q. absurd (ground arith))

  pub round-AllHealthy :
      (cs : List HealthCheck) (last : List HealthError) (b : Bool) (h : Steps)
      → (round site cs last b h).1 ≡ true
      → (b ≡ true) × AllHealthy h cs
  unfolding round
  round-AllHealthy [] last b h p = (p, tt)
  round-AllHealthy (c ∷ cs) last b h p =
      let (a, l) =
        round-AllHealthy cs _ (still_healthy site b c.required (one site h c)) (probed c ∷ h) p in
      let (d, e) = still_healthy_lem b c.required (one site h c) a in (d, (e, l))

  still_healthy-true :
      (required : Bool) (o : Option HealthError)
      → (required ≡ true → o ≡ none)
      → still_healthy site true required o ≡ true
  still_healthy-true required none k = refl
  still_healthy-true true (some e) k = absurd (cc (k refl))
  still_healthy-true false (some e) k = refl

  pub AllHealthy-round :
      (cs : List HealthCheck) (last : List HealthError) (b : Bool) (h : Steps)
      → b ≡ true
      → AllHealthy h cs
      → (round site cs last b h).1 ≡ true
  unfolding round
  AllHealthy-round [] last b h p k = p
  AllHealthy-round (c ∷ cs) last b h p k =
      AllHealthy-round cs _ _ (probed c ∷ h)
        (rw p (still_healthy-true c.required (one site h c) k.0)) k.1

-- ===== src/Config/Sound.antt =====
-- What Validate guarantees of a configuration that it accepts.
use tailpreview.Base.{
  ℕ, suc, ◌≤◌, ◌<◌, ◌≡◌, ◌≢◌, ◌⊎◌, refl, inl, inr, Bool, true, false, Option, none, some, List, [],
  ◌∷◌, map, arith, Option-cases, Bool-cases,
}
use tailpreview.Base.Lists.{All, All-map, any}
use tailpreview.Base.Strings.{Text, codes, text_eq, text_eq_iff, has_prefix}
use tailpreview.Base.Outcome.{ok, Outcome-cases}
use tailpreview.Model.{Route, HealthCheck, VerificationCheck}
use tailpreview.Url.{Url, Net, hostname}
use tailpreview.Config.{Resolved}
use tailpreview.Config.Upstream.{
  normal_host, is_loopback_ip, check_host, check_parsed, validate_upstream,
  validate_verification_path,
}
use tailpreview.Config.Validate.{
  is_catch_all, validate_routes, normalize_health, validate_health, is_bad_range, validate_checks,
  validate,
}

module _ (net : Net) where
  -- The name localhost, or an IP address that is loopback, up to case and a final dot.
  abbrev pub IsLoopback : Text → Type 0
  IsLoopback host = (host ≡ codes "localhost") ⊎ (net.parse_ip host ≡ some true)

  -- An HTTP or HTTPS URL of this machine without credentials.
  abbrev pub IsLocal : Text → Type 0
  IsLocal raw =
      (u : Url) × (net.parse raw ≡ some u)
      × (u.user ≡ false)
      × ((u.scheme ≡ codes "http") ⊎ (u.scheme ≡ codes "https"))
      × IsLoopback (normal_host (hostname u))

  check_host-IsLoopback : (h : Text) → check_host net h ≡ ok tt → IsLoopback h
  unfolding check_host
  check_host-IsLoopback h e = elim (Bool-cases (text_eq h (codes "localhost"))) [
    | inl t ↦ inl ((text_eq_iff h (codes "localhost")).0 t)
    | inr f ↦ inr (loopback (net.parse_ip h) refl (ground arith))
  ]
    where
      loopback :
          (o : Option Bool)
          → net.parse_ip h ≡ o
          → is_loopback_ip o ≡ true
          → net.parse_ip h ≡ some true
      loopback none p q = absurd (cc q)
      loopback (some true) p q = p
      loopback (some false) p q = absurd (cc q)

  validate_upstream-IsLocal :
      (raw : Text) (insecure : Bool) → validate_upstream net raw insecure ≡ ok tt → IsLocal raw
  unfolding validate_upstream check_parsed
  validate_upstream-IsLocal raw insecure e = elim (Option-cases (net.parse raw)) [
    | inl p ↦ absurd (ground arith)
    | inr (u, p) ↦
        let http = text_eq_iff u.scheme (codes "http") in
        let https = text_eq_iff u.scheme (codes "https") in
        let host : check_host net (normal_host (hostname u)) ≡ ok tt = ground arith in
        let anonymous : u.user ≡ false = ground arith in
        let scheme : (text_eq u.scheme (codes "http") ≡ true)
            ⊎ (text_eq u.scheme (codes "https") ≡ true) =
          ground arith in
        (
          u,
          p,
          anonymous,
          elim scheme [ inl t ↦ inl (http.0 t) | inr t ↦ inr (https.0 t) ],
          check_host-IsLoopback _ host,
        )
  ]

  -- Every path starts with a slash, every upstream is local, and the last route and no other takes
  -- every path.
  abbrev pub AreRoutes : List Route → Type 0
  AreRoutes [] = ⊥
  AreRoutes (r ∷ []) =
      (has_prefix r.path (codes "/") ≡ true) × IsLocal r.upstream × (is_catch_all r ≡ true)
  AreRoutes (r ∷ s ∷ rest) =
      (has_prefix r.path (codes "/") ≡ true)
      × IsLocal r.upstream
      × (is_catch_all r ≡ false)
      × AreRoutes (s ∷ rest)

  validate_step :
      (i : ℕ) (r : Route) (rest : List Route)
      → validate_routes net i false (r ∷ rest) ≡ ok true
      → (has_prefix r.path (codes "/") ≡ true) × IsLocal r.upstream
  unfolding validate_routes
  validate_step i r rest h =
      elim (Outcome-cases (validate_upstream net r.upstream r.insecure_skip_verify)) [
        | inl (tt, e) ↦
            (ground arith, validate_upstream-IsLocal r.upstream r.insecure_skip_verify e)
        | inr (x, e) ↦ absurd (ground arith)
      ]

  validate_routes-AreRoutes :
      (i : ℕ) (rs : List Route) → validate_routes net i false rs ≡ ok true → AreRoutes rs
  unfolding validate_routes
  validate_routes-AreRoutes i [] h = absurd (cc h)
  validate_routes-AreRoutes i (r ∷ []) h =
      let (a, b) = validate_step i r [] h in (a, b, ground arith)
  validate_routes-AreRoutes i (r ∷ s ∷ rest) h =
      let (a, b) = validate_step i r (s ∷ rest) h in
      let middle : is_catch_all r ≡ false = ground arith in
      (a, b, middle, validate_routes-AreRoutes (suc i) (s ∷ rest) (ground (arith, middle)))

  abbrev pub IsHealth : HealthCheck → Type 0
  IsHealth c = IsLocal c.url × (100 ≤ c.min_code) × (c.min_code ≤ c.max_code) × (c.max_code ≤ 599)

  validate_health-IsHealth :
      (i : ℕ) (cs : List HealthCheck) → validate_health net i cs ≡ ok tt → All IsHealth cs
  unfolding validate_health
  validate_health-IsHealth i [] h = tt
  validate_health-IsHealth i (c ∷ cs) h =
      elim (Outcome-cases (validate_upstream net c.url c.insecure_skip_verify)) [
        | inl (tt, e) ↦ (
          (
            validate_upstream-IsLocal c.url c.insecure_skip_verify e,
            ground arith,
            ground arith,
            ground arith,
          ),
          validate_health-IsHealth (suc i) cs (ground arith),
        )
        | inr (x, e) ↦ absurd (ground arith)
      ]

  -- A path that Validate accepts, and a range within 200 and 399.
  abbrev pub IsCheck : VerificationCheck → Type 0
  IsCheck c =
      (validate_verification_path net c.path ≡ ok tt)
      × (200 ≤ c.min_code)
      × (c.min_code ≤ c.max_code)
      × (c.max_code ≤ 399)

  -- No path stands twice.
  abbrev pub AreDistinct : List VerificationCheck → Type 0
  AreDistinct [] = Unit
  AreDistinct (c ∷ cs) = All (λ d. d.path ≢ c.path) cs × AreDistinct cs

  unseen : (p : Text) (seen : List Text) → any (text_eq p) seen ≡ false → All (λ q. p ≢ q) seen
  unseen p [] h = tt
  unseen p (q ∷ qs) h =
      let same = text_eq_iff p q in
      (λ e. let t = same.1 e in absurd (ground arith), unseen p qs (ground arith))

  abbrev IsNew : List Text → VerificationCheck → Type 0
  IsNew seen c = All (λ q. c.path ≢ q) seen

  validate_checks-AreDistinct :
      (i : ℕ) (seen : List Text) (cs : List VerificationCheck)
      → validate_checks net i seen cs ≡ ok tt
      → All IsCheck cs × All (IsNew seen) cs × AreDistinct cs
  unfolding validate_checks is_bad_range
  validate_checks-AreDistinct i seen [] h = (tt, tt, tt)
  validate_checks-AreDistinct i seen (c ∷ cs) h =
      elim (Outcome-cases (validate_verification_path net c.path)) [
        | inl (tt, e) ↦
            let new : any (text_eq c.path) seen ≡ false = ground arith in
            let (good, fresh, distinct) =
              validate_checks-AreDistinct (suc i) (c.path ∷ seen) cs (ground arith) in
            (
              ((e, ground arith, ground arith, ground arith), good),
              (unseen c.path seen new, All-map _ (IsNew seen) cs (λ d n. n.1) fresh),
              (All-map _ (λ d. d.path ≢ c.path) cs (λ d n. n.0) fresh, distinct),
            )
        | inr (x, e) ↦ absurd (ground arith)
      ]

  pub record IsSound (cfg : Resolved) : Type 0 where
    pub idle_positive : 0 < cfg.idle_ttl
    pub idle_within_age : cfg.idle_ttl ≤ cfg.max_age
    pub routes : AreRoutes cfg.routes
    pub health : All IsHealth (map normalize_health cfg.health)
    pub checks : All IsCheck cfg.verify
    pub distinct : AreDistinct cfg.verify
    pub checked : cfg.verify ≢ []

  -- A configuration that Validate accepts has positive lifetimes, the idle time within the maximal age;
  -- routes whose paths start with a slash, whose upstreams are HTTP or HTTPS URLs of this machine
  -- without credentials, and of which the last and no other takes every path; health checks of such
  -- URLs with ranges within 100 and 599; and at least one final check, with distinct paths and ranges
  -- within 200 and 399.
  pub validate-IsSound : (cfg : Resolved) → validate net cfg ≡ ok tt → IsSound cfg
  unfolding validate
  validate-IsSound cfg h = elim (Outcome-cases (validate_routes net 1 false cfg.routes)) [
    | inr (x, e) ↦ absurd (ground arith)
    | inl (last, e) ↦
        let routed : validate_routes net 1 false cfg.routes ≡ ok true = ground arith in
        let healthy : validate_health net 1 (map normalize_health cfg.health) ≡ ok tt =
          ground arith in
        let checked : validate_checks net 1 [] cfg.verify ≡ ok tt = ground arith in
        let (good, fresh, distinct) = validate_checks-AreDistinct 1 [] cfg.verify checked in
        record {
          idle_positive = ground arith;
          idle_within_age = ground arith;
          routes = validate_routes-AreRoutes 1 cfg.routes routed;
          health = validate_health-IsHealth 1 _ healthy;
          checks = good;
          distinct = distinct;
          checked = λ p. ground arith;
        }
  ]

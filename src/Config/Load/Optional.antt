-- ===== src/Config/Load/Optional.antt =====
-- What becomes of health checks that a configuration file gives as mappings without `required`:
-- UnmarshalYAML of internal/config/health_yaml.go, Load, and the checks of internal/health/health.go.
use tailpreview.Base.{
  ℕ, suc, ◌≡◌, subst, ◌≢◌, refl, Bool, true, false, Option, none, some, List, [], ◌∷◌, arith,
}
use tailpreview.Base.Lists.{All}
use tailpreview.Base.Strings.{Text, codes}
use tailpreview.Base.Outcome.{Outcome, ok, err, >>=_ok}
use tailpreview.Model.{HealthCheck}
use tailpreview.Config.Decode.{
  Node, scalar, mapping, other, Members, no_members, member, Yaml, decoded, check_health_keys,
  unmarshal_health, unmarshal_verification, unmarshal_duration,
}
use tailpreview.Config.Load.{
  Field, version_field, name_field, routes_field, health_field, verify_field, idle_field,
  max_age_field, File, each, decode_field, decode_fields,
}
use tailpreview.Health.{Steps, Site, HealthError, probed}
use tailpreview.Health.Check.{still_healthy, round, Waited, on_round, rounds, wait_healthy}
use tailpreview.Health.Wait.{AllHealthy}

-- No key of the mapping is this one.
abbrev pub HasNoKey : Text → Members → Type 0
HasNoKey key no_members = Unit
HasNoKey key (member k v ms) = k ≢ key × HasNoKey key ms

-- Decode leaves a field that the mapping does not give at its zero value.
abbrev pub LeavesFalse : Yaml → Type 0
LeavesFalse yaml =
    (ms : Members) (c : HealthCheck)
    → HasNoKey (codes "required") ms
    → yaml.decode_health ms ≡ ok c
    → c.required ≡ false

-- A mapping that does not say whether the check is required.
abbrev pub IsUnmarked : Node → Type 0
IsUnmarked (scalar v) = ⊥
IsUnmarked (mapping ms) = HasNoKey (codes "required") ms
IsUnmarked (other s) = Unit

-- Every health check of the document is such a mapping.
abbrev pub IsUnmarkedField : Field → Type 0
IsUnmarkedField (version_field n) = Unit
IsUnmarkedField (name_field s) = Unit
IsUnmarkedField (routes_field rs) = Unit
IsUnmarkedField (health_field nodes) = All IsUnmarked nodes
IsUnmarkedField (verify_field nodes) = Unit
IsUnmarkedField (idle_field node) = Unit
IsUnmarkedField (max_age_field node) = Unit

abbrev pub IsOptional : HealthCheck → Type 0
IsOptional c = c.required ≡ false

module _ (site : Site) where
  pub all_optional-AllHealthy :
      (h : Steps) (cs : List HealthCheck) → All IsOptional cs → AllHealthy site h cs
  all_optional-AllHealthy h [] k = tt
  all_optional-AllHealthy h (c ∷ cs) k =
      (λ p. absurd (cc (p, k.0)), all_optional-AllHealthy (probed c ∷ h) cs k.1)

  still_optional :
      (required : Bool) (o : Option HealthError)
      → required ≡ false
      → still_healthy site true required o ≡ true
  still_optional required none p = refl
  still_optional required (some e) p = rw p refl

  all_optional-round :
      (cs : List HealthCheck) (last : List HealthError) (b : Bool) (h : Steps)
      → b ≡ true
      → All IsOptional cs
      → (round site cs last b h).1 ≡ true
  unfolding round
  all_optional-round [] last b h p k = p
  all_optional-round (c ∷ cs) last b h p k =
      all_optional-round cs _ _ (probed c ∷ h) (rw p (still_optional c.required _ k.0)) k.1

  on_round_lem :
      (deadline : ℕ) (next : Steps → Waited site) (r : List HealthError × Bool × Steps)
      → r.1 ≡ true
      → on_round site deadline next r ≡ some none
  on_round_lem deadline next (last, true, h) p = refl
  on_round_lem deadline next (last, false, h) p = absurd (cc p)

  rounds_lem :
      (fuel deadline : ℕ) (cs : List HealthCheck) (h : Steps)
      → (round site cs [] true h).1 ≡ true
      → rounds site (suc fuel) deadline cs h ≡ some none
  unfolding rounds
  rounds_lem fuel deadline cs h p =
      on_round_lem deadline (rounds site fuel deadline cs) (round site cs [] true h) p

  pub all_optional-wait :
      (timeout : ℕ) (cs : List HealthCheck) (h : Steps)
      → All IsOptional cs
      → wait_healthy site timeout cs h ≡ some none
  unfolding wait_healthy
  all_optional-wait timeout [] h k = refl
  all_optional-wait timeout (c ∷ cs) h k =
      rounds_lem _ _ (c ∷ cs) h (all_optional-round (c ∷ cs) [] true h refl k)

pub decoded_ok : {A : Type 0} (r : Outcome Text A) (a : A) → decoded r ≡ ok a → r ≡ ok a
decoded_ok (ok b) a h = ground arith
decoded_ok (err e) a h = absurd (cc h)

kept :
    (file next : File)
    → All IsOptional file.health
    → file.health ≡ next.health
    → All IsOptional next.health
kept file next k e = subst (All IsOptional) e k

module _ (yaml : Yaml) (zero_value : LeavesFalse yaml) where
  unmarshal_health-IsOptional :
      (node : Node) (c : HealthCheck)
      → IsUnmarked node
      → unmarshal_health yaml node ≡ ok c
      → IsOptional c
  unfolding unmarshal_health
  unmarshal_health-IsOptional (scalar v) c u h = elim u [ ]
  unmarshal_health-IsOptional (mapping ms) c u h =
      let (_, _, k) = >>=_ok (check_health_keys ms) _ c h in
      let (d, e, l) = >>=_ok (decoded (yaml.decode_health ms)) _ c k in
      let same : d ≡ c = ground arith in
      subst IsOptional same (zero_value ms d u (decoded_ok (yaml.decode_health ms) d e))
  unmarshal_health-IsOptional (other s) c u h = absurd (cc h)

  each-IsOptional :
      (nodes : List Node) (cs : List HealthCheck)
      → All IsUnmarked nodes
      → each (unmarshal_health yaml) nodes ≡ ok cs
      → All IsOptional cs
  unfolding each
  each-IsOptional [] [] u h = tt
  each-IsOptional [] (c ∷ cs) u h = absurd (cc h)
  each-IsOptional (n ∷ nodes) cs u h =
      let (c, e, k) = >>=_ok (unmarshal_health yaml n) _ cs h in
      let (rest, f, l) = >>=_ok (each (unmarshal_health yaml) nodes) _ cs k in
      let same : c ∷ rest ≡ cs = ground arith in
      subst (All IsOptional) same
        (unmarshal_health-IsOptional n c u.0 e, each-IsOptional nodes rest u.1 f)

  decode_field-IsOptional :
      (f : Field) (file next : File)
      → IsUnmarkedField f
      → All IsOptional file.health
      → decode_field yaml f file ≡ ok next
      → All IsOptional next.health
  unfolding decode_field
  decode_field-IsOptional (version_field n) file next u k h = kept file next k (ground arith)
  decode_field-IsOptional (name_field s) file next u k h = kept file next k (ground arith)
  decode_field-IsOptional (routes_field rs) file next u k h = kept file next k (ground arith)
  decode_field-IsOptional (health_field nodes) file next u k h =
      let (cs, e, l) = >>=_ok (each (unmarshal_health yaml) nodes) _ next h in
      let same : cs ≡ next.health = ground arith in
      subst (All IsOptional) same (each-IsOptional nodes cs u e)
  decode_field-IsOptional (verify_field nodes) file next u k h =
      let (cs, e, l) = >>=_ok (each (unmarshal_verification yaml) nodes) _ next h in
      kept file next k (ground arith)
  decode_field-IsOptional (idle_field node) file next u k h =
      let (d, e, l) = >>=_ok (unmarshal_duration yaml node) _ next h in
      kept file next k (ground arith)
  decode_field-IsOptional (max_age_field node) file next u k h =
      let (d, e, l) = >>=_ok (unmarshal_duration yaml node) _ next h in
      kept file next k (ground arith)

  pub decode_fields-IsOptional :
      (fs : List Field) (file next : File)
      → All IsUnmarkedField fs
      → All IsOptional file.health
      → decode_fields yaml fs file ≡ ok next
      → All IsOptional next.health
  unfolding decode_fields
  decode_fields-IsOptional [] file next u k h = kept file next k (ground arith)
  decode_fields-IsOptional (f ∷ fs) file next u k h =
      let (one_more, e, l) = >>=_ok (decode_field yaml f file) _ next h in
      decode_fields-IsOptional fs one_more next u.1
        (decode_field-IsOptional f file one_more u.0 k e) l

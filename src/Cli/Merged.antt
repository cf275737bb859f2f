-- ===== src/Cli/Merged.antt =====
-- What the flags of `up` in cmd/tailpreview/main.go make of the configuration of the file.
pub mod First
pub mod Health
pub mod Parts
use tailpreview.Base.{
  ℕ, ◌≡◌, ◌≢◌, ◌<◌, refl, sym, ap, subst, ◌∙◌, ◌⊎◌, Bool, true, false, Option, none, some, List, [],
  ◌∷◌, ◌++◌, map, arith, Bool-cases, inl, inr, if◌then◌else◌, ◌==◌,
}
use tailpreview.Base.Lists.{All}
use tailpreview.Base.Strings.{Text}
use tailpreview.Base.Outcome.{Outcome, ok, err, >>=_ok, ok_injective, Outcome-cases}
use tailpreview.Model.{Route, HealthCheck, VerificationCheck}
use tailpreview.Url.{Net}
use tailpreview.Config.{Resolved}
use tailpreview.Config.Values.{parse_route}
use tailpreview.Config.Values.Printed.{printed_route, parse_route_iff-IsPlain}
use tailpreview.Config.Decode.{Yaml, parse_duration}
use tailpreview.Config.Sound.{IsCheck}
use tailpreview.Config.Load.{each}
use tailpreview.Arguments.{parse_verification_check, apply_route_booleans}
use tailpreview.Arguments.Sound.{
  changed, apply_route_booleans_lem, parse_verification_check-IsCheck,
}
use tailpreview.Cli.{Shell, UpFlags}
use tailpreview.Cli.Flags.{
  with_routes, catch_all_route, with_positional, strip, skip_verify, with_route_booleans,
  with_health_urls, with_ranges, with_insecure_health, with_verify, with_lifetime, merge_flags,
}
use tailpreview.Cli.Merged.Health.{flag_checks, with_health_urls_lem, AreRanges, marked, marked_lem}
use tailpreview.Cli.Merged.First.{at_first}
use tailpreview.Cli.Merged.Parts.{
  AreGiven, AreVerified, IsLifetime, with_new_routes, with_new_verify, given_lem, booleans_lem,
  verify_lem, lifetime_lem,
}

-- What the flags make of `old`.
pub record IsMerged (net : Net) (yaml : Yaml) (flags : UpFlags) (old new : Resolved) : Type 0 where
  pub base : List Route
  pub given : AreGiven flags.routes flags.positional old.routes base
  pub routes :
      new.routes
      ≡ map
          (changed skip_verify flags.insecure_routes)
          (map (changed strip flags.strip_prefixes) base)
  pub ranges : List (Text × ℕ × ℕ)
  pub written : AreRanges flags.health_ranges ranges
  pub health :
      new.health
      ≡ at_first
          (marked ranges flags.insecure_health)
          []
          (flag_checks flags.health flags.optional_health old.health)
  pub verify : AreVerified net flags.verify old.verify new.verify
  pub idle : IsLifetime yaml flags.ttl old.idle_ttl new.idle_ttl
  pub age : IsLifetime yaml flags.max_age old.max_age new.max_age
  pub same : (new.name ≡ old.name) × (new.path ≡ old.path) × (new.project_root ≡ old.project_root)

abbrev with_new_health : Resolved → List HealthCheck → Resolved
with_new_health r cs = record r { health = cs }

health_only :
    (us optional : List Text) (r : Resolved)
    → with_health_urls us optional r ≡ with_new_health r (with_health_urls us optional r).health
health_only [] [] r = refl
health_only [] (u ∷ us) r = refl
health_only (u ∷ us) optional r = refl

abbrev with_lifetimes : Resolved → ℕ → ℕ → Resolved
with_lifetimes r idle age = record r { idle_ttl = idle; max_age = age }

module _ (shell : Shell) (flags : UpFlags) (old : Resolved) where
  -- The results of the steps.
  record Steps (new : Resolved) : Type 0 where
    routed : Resolved
    placed : Resolved
    marked : Resolved
    ranged : List HealthCheck
    health : List HealthCheck
    verified : Resolved
    idle : ℕ
    age : ℕ
    routing : with_routes flags.routes old ≡ ok routed
    placing : with_positional flags.positional flags.routes routed ≡ ok placed
    marking : with_route_booleans flags.strip_prefixes flags.insecure_routes placed ≡ ok marked
    ranging :
        with_ranges flags.health_ranges
          (with_health_urls flags.health flags.optional_health marked).health
        ≡ ok ranged
    trusting : with_insecure_health flags.insecure_health ranged ≡ ok health
    verifying :
        with_verify shell.net flags.verify
          (with_new_health (with_health_urls flags.health flags.optional_health marked) health)
        ≡ ok verified
    idling : with_lifetime shell.files.yaml flags.ttl verified.idle_ttl ≡ ok idle
    aging : with_lifetime shell.files.yaml flags.max_age verified.max_age ≡ ok age
    ending : with_lifetimes verified idle age ≡ new

  merge_flags-Steps : (new : Resolved) → merge_flags shell flags old ≡ ok new → Steps new
  unfolding merge_flags
  merge_flags-Steps new h =
      let (routed, e0, h0) = >>=_ok (with_routes flags.routes old) _ new h in
      let (placed, e1, h1) =
        >>=_ok (with_positional flags.positional flags.routes routed) _ new h0 in
      let (marked, e2, h2) =
        >>=_ok (with_route_booleans flags.strip_prefixes flags.insecure_routes placed) _ new h1 in
      let checked : Resolved = with_health_urls flags.health flags.optional_health marked in
      let (ranged, e3, h3) = >>=_ok (with_ranges flags.health_ranges checked.health) _ new h2 in
      let (health, e4, h4) = >>=_ok (with_insecure_health flags.insecure_health ranged) _ new h3 in
      let (verified, e5, h5) =
        >>=_ok (with_verify shell.net flags.verify (with_new_health checked health)) _ new h4 in
      let (idle, e6, h6) =
        >>=_ok (with_lifetime shell.files.yaml flags.ttl verified.idle_ttl) _ new h5 in
      let (age, e7, h7) =
        >>=_ok (with_lifetime shell.files.yaml flags.max_age verified.max_age) _ new h6 in
      record {
        routed = routed;
        placed = placed;
        marked = marked;
        ranged = ranged;
        health = health;
        verified = verified;
        idle = idle;
        age = age;
        routing = e0;
        placing = e1;
        marking = e2;
        ranging = e3;
        trusting = e4;
        verifying = e5;
        idling = e6;
        aging = e7;
        ending = ok_injective h7;
      }

  all_marks : List Route → List Route
  all_marks rs =
      map (changed skip_verify flags.insecure_routes) (map (changed strip flags.strip_prefixes) rs)

  Steps-IsMerged : (new : Resolved) → Steps new → IsMerged shell.net shell.files.yaml flags old new
  unfolding all_marks
  Steps-IsMerged new s =
      let (base, given, p) =
        given_lem flags.routes flags.positional old s.routed s.placed s.routing s.placing in
      let m : s.marked ≡ with_new_routes old (all_marks base) =
        booleans_lem flags.strip_prefixes flags.insecure_routes s.placed s.marked s.marking
        ∙ ap (λ r. with_new_routes r (all_marks r.routes)) p in
      let c : with_health_urls flags.health flags.optional_health s.marked
          ≡ with_new_health (with_new_routes old (all_marks base)) _ =
        health_only flags.health flags.optional_health s.marked
        ∙ ap
            (λ r.
              with_new_health r
                (with_health_urls flags.health flags.optional_health s.marked).health)
            m in
      let (checks, good, v) = verify_lem shell.net flags.verify _ s.verified s.verifying in
      let w : s.verified
          ≡ with_new_verify (with_new_health (with_new_routes old (all_marks base)) s.health)
              checks =
        v ∙ ap (λ r. with_new_verify (with_new_health r s.health) checks) c in
      let (ranges, written, marks) =
        marked_lem flags.health_ranges flags.insecure_health _ s.ranged s.health s.ranging
          s.trusting in
      let full = sym (ap (λ r. with_lifetimes r s.idle s.age) w) ∙ s.ending in
      subst (IsMerged shell.net shell.files.yaml flags old) full (record {
        base = base;
        given = given;
        routes = refl;
        ranges = ranges;
        written = written;
        health =
            marks
            ∙ ap (at_first (marked ranges flags.insecure_health) []) (
                with_health_urls_lem flags.health flags.optional_health s.marked
                ∙ ap (λ r. flag_checks flags.health flags.optional_health r.health) m);
        verify = subst (λ r. AreVerified shell.net flags.verify r.verify checks) c good;
        idle =
            subst (λ r. IsLifetime shell.files.yaml flags.ttl r.idle_ttl s.idle) w
              (lifetime_lem _ flags.ttl _ s.idle s.idling);
        age =
            subst (λ r. IsLifetime shell.files.yaml flags.max_age r.max_age s.age) w
              (lifetime_lem _ flags.max_age _ s.age s.aging);
        same = (refl, refl, refl);
      })

-- If `up` accepts its flags, then: the routes are those that --route gives, written as they were
-- given, or the one of the positional upstream, or those of the file, and marked exactly where
-- --strip-prefix and --insecure-upstream name their path; the health checks are those of --health as
-- required ones and then those of --optional-health, with codes from 200 to 399, or those of the file,
-- where the first check of each URL has the last range that --health-range writes for it, from 100 to
-- 599, and is unverified if --insecure-health names it; the final checks are those that --verify
-- writes, with ranges that are written or from 200 to 399, and Validate accepts them, or those of the
-- file; the lifetimes are the positive ones that --ttl and --max-age write, or those of the file; and
-- everything else is that of the file.
pub merge_flags-IsMerged :
    (shell : Shell) (flags : UpFlags) (old new : Resolved)
    → merge_flags shell flags old ≡ ok new
    → IsMerged shell.net shell.files.yaml flags old new
merge_flags-IsMerged shell flags old new h =
    Steps-IsMerged shell flags old new (merge_flags-Steps shell flags old new h)

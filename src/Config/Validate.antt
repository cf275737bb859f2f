-- ===== src/Config/Validate.antt =====
-- Validate and normalizeHealth of internal/config/config.go. Each loop is a recursion on what is left
-- of its list, with the position of the next entry counted from 1.
use tailpreview.Base.{
  ℕ, suc, Bool, true, false, not, ◌||◌, List, [], ◌∷◌, map, ltb, ◌==◌, if◌then◌else◌,
}
use tailpreview.Base.Lists.{any}
use tailpreview.Base.Strings.{Text, codes, text_eq, has_prefix}
use tailpreview.Base.Outcome.{Outcome, ok, err, ◌>>=◌, ◌>>◌}
use tailpreview.Model.{Route, HealthCheck, VerificationCheck}
use tailpreview.Url.{Net}
use tailpreview.Errors.{Error, plain, quoting, at_route, at_health, at_verification}
use tailpreview.Config.{Resolved}
use tailpreview.Config.Upstream.{validate_upstream, validate_verification_path}

abbrev pub guard : Bool → Error → Outcome Error (Unit {0})
guard true e = ok tt
guard false e = err e

-- `if err := ...; err != nil { return fmt.Errorf(...) }`
abbrev pub relabel : (Error → Error) → Outcome Error (Unit {0}) → Outcome Error (Unit {0})
relabel f (ok _) = ok tt
relabel f (err e) = err (f e)

unfoldable pub is_catch_all : Route → Bool
is_catch_all r = text_eq r.path (codes "/*") || text_eq r.path (codes "/")

abbrev is_last : List Route → Bool
is_last [] = true
is_last (_ ∷ _) = false

-- The loop over the routes, which returns `catchAll`.
unfoldable pub validate_routes : Net → ℕ → Bool → List Route → Outcome Error Bool
unfolding is_catch_all
validate_routes net i catch_all [] = ok catch_all
validate_routes net i catch_all (r ∷ rest) = do
  guard (has_prefix r.path (codes "/")) (at_route i (plain "path must start with /"))
  guard (not (is_catch_all r) || is_last rest) (plain "catch-all route must be the final route")
  relabel (at_route i) (validate_upstream net r.upstream r.insecure_skip_verify)
  validate_routes net (suc i) (catch_all || is_catch_all r) rest

unfoldable pub normalize_health : HealthCheck → HealthCheck
normalize_health c = record c {
  min_code = if c.min_code == 0 then 200 else c.min_code;
  max_code = if c.max_code == 0 then 399 else c.max_code;
  required = true;
}

unfoldable pub validate_health : Net → ℕ → List HealthCheck → Outcome Error (Unit {0})
validate_health net i [] = ok tt
validate_health net i (c ∷ rest) = do
  relabel (at_health i) (validate_upstream net c.url c.insecure_skip_verify)
  guard (not (ltb c.min_code 100 || ltb 599 c.max_code || ltb c.max_code c.min_code))
      (at_health i (plain "invalid status range"))
  validate_health net (suc i) rest

-- A range that the final verification accepts.
unfoldable pub is_bad_range : ℕ → ℕ → Bool
is_bad_range lo hi = ltb lo 200 || ltb 399 hi || ltb hi lo

unfoldable pub validate_checks :
    Net → ℕ → List Text → List VerificationCheck → Outcome Error (Unit {0})
unfolding is_bad_range
validate_checks net i seen [] = ok tt
validate_checks net i seen (c ∷ rest) = do
  relabel (at_verification i) (validate_verification_path net c.path)
  guard (not (is_bad_range c.min_code c.max_code))
      (at_verification i (plain "status range must satisfy 200 <= MIN <= MAX <= 399"))
  guard (not (any (text_eq c.path) seen)) (quoting "verification path is duplicated" c.path)
  validate_checks net (suc i) (c.path ∷ seen) rest

abbrev is_nil {ℓ} : {A : Type ℓ} → List A → Bool
is_nil [] = true
is_nil (_ ∷ _) = false

unfoldable pub validate : Net → Resolved → Outcome Error (Unit {0})
validate net cfg = do
  guard (not (cfg.idle_ttl == 0 || cfg.max_age == 0))
      (plain "idle TTL and max age must be positive")
  guard (not (ltb cfg.max_age cfg.idle_ttl))
      (plain "max age must be greater than or equal to idle TTL")
  guard (not (is_nil cfg.routes)) (plain "at least one route is required")
  catch_all ← validate_routes net 1 false cfg.routes
  guard catch_all (plain "final catch-all route /* is required")
  validate_health net 1 (map normalize_health cfg.health)
  guard (not (is_nil cfg.verify)) (plain "at least one final verification path is required")
  validate_checks net 1 [] cfg.verify

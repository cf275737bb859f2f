-- ===== src/Config/Decode.antt =====
-- The UnmarshalYAML methods of internal/config (health_yaml.go, verification_yaml.go, duration.go) and
-- ParseDuration. What yaml.Node.Decode and time.ParseDuration answer is a parameter.
use tailpreview.Base.{ℕ, zero, suc, true, false, not, ◌&&◌, List, [], ◌∷◌, ◌==◌, if◌then◌else◌}
use tailpreview.Base.Lists.{any}
use tailpreview.Base.Strings.{Text, codes, text_eq, is_empty}
use tailpreview.Base.Outcome.{Outcome, ok, err, ◌>>=◌, ◌>>◌}
use tailpreview.Model.{HealthCheck, VerificationCheck}
use tailpreview.Errors.{Error, plain, external, quoting, wrapped}
use tailpreview.Config.Validate.{guard}

-- yaml.Node: a scalar with its value, a mapping with its keys in order, and any other kind as it is
-- written. Aliases are resolved before.
mutual
  pub data Node : Type 0 where
    scalar : Text → Node
    mapping : Members → Node
    other : Text → Node

  pub data Members : Type 0 where
    no_members : Members
    member : Text → Node → Members → Members

-- Node.Decode into the two structures, and time.ParseDuration, where zero stands for a duration that
-- is not positive.
pub record Yaml : Type 0 where
  pub decode_health : Members → Outcome Text HealthCheck
  pub decode_verification : Members → Outcome Text VerificationCheck
  pub parse_duration : Text → Outcome Text ℕ

-- Value of a node: that of a scalar.
abbrev pub node_value : Node → Text
node_value (scalar v) = v
node_value (mapping _) = []
node_value (other _) = []

abbrev pub decoded : {A : Type 0} → Outcome Text A → Outcome Error A
decoded (ok a) = ok a
decoded (err e) = err (external e)

abbrev pub health_fields : List Text
health_fields =
    codes "url"
    ∷ codes "required"
    ∷ codes "min_code"
    ∷ codes "max_code"
    ∷ codes "insecure_skip_verify"
    ∷ []

abbrev pub verification_fields : List Text
verification_fields =
    codes "path" ∷ codes "min_code" ∷ codes "max_code" ∷ codes "follow_redirects" ∷ []

-- The loop over the keys of a health entry.
unfoldable pub check_health_keys : Members → Outcome Error (Unit {0})
check_health_keys no_members = ok tt
check_health_keys (member key v ms) =
    guard (any (text_eq key) health_fields) (quoting "unknown health field" key)
    >> check_health_keys ms

-- The loop over the keys of a verification entry.
unfoldable pub check_verification_keys : Members → Outcome Error (Unit {0})
check_verification_keys no_members = ok tt
check_verification_keys (member key v ms) = do
  guard (any (text_eq key) verification_fields) (quoting "unknown verification field" key)
  guard
      (not (
        text_eq key (codes "follow_redirects")
        && not (text_eq (node_value v) (codes "same_origin"))))
      (plain "follow_redirects must be same_origin")
  check_verification_keys ms

unfoldable pub unmarshal_health : Yaml → Node → Outcome Error HealthCheck
unmarshal_health yaml (scalar v) = ok (record {
  url = v;
  required = true;
  min_code = 200;
  max_code = 399;
  insecure_skip_verify = false;
})
unmarshal_health yaml (other _) = err (plain "health entry must be a URL or mapping")
unmarshal_health yaml (mapping ms) = do
  check_health_keys ms
  c ← decoded (yaml.decode_health ms)
  guard (not (is_empty c.url)) (plain "health url is required")
  ok c

abbrev pub or_code : ℕ → ℕ → ℕ
or_code zero n = n
or_code (suc c) n = suc c

unfoldable pub unmarshal_verification : Yaml → Node → Outcome Error VerificationCheck
unmarshal_verification yaml (scalar v) = ok (record { path = v; min_code = 200; max_code = 399 })
unmarshal_verification yaml (other _) = err (plain "verification entry must be a path or mapping")
unmarshal_verification yaml (mapping ms) = do
  check_verification_keys ms
  c ← decoded (yaml.decode_verification ms)
  guard (not (is_empty c.path)) (plain "verification path is required")
  ok (record c { min_code = or_code c.min_code 200; max_code = or_code c.max_code 399 })

unfoldable pub parse_duration : Yaml → Text → Outcome Error ℕ
parse_duration yaml value = elim (yaml.parse_duration value) [
  | err e ↦ err (wrapped "invalid duration" (external e))
  | ok d ↦ if d == 0 then err (plain "duration must be positive") else ok d
]

unfoldable pub unmarshal_duration : Yaml → Node → Outcome Error ℕ
unmarshal_duration yaml (scalar v) = parse_duration yaml v
unmarshal_duration yaml (mapping _) = err (plain "duration must be a string such as 24h")
unmarshal_duration yaml (other _) = err (plain "duration must be a string such as 24h")

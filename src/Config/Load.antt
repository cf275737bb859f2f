-- ===== src/Config/Load.antt =====
-- Load of internal/config/config.go. Reading the file, the environment and the YAML parser are
-- parameters.
pub mod Optional
pub mod Sound
use tailpreview.Base.{
  ℕ, zero, suc, Bool, true, false, Option, none, some, List, [], ◌∷◌, ◌==◌, if◌then◌else◌,
}
use tailpreview.Base.Strings.{Text, codes, is_empty}
use tailpreview.Base.Outcome.{Outcome, ok, err, ◌>>=◌, ◌>>◌}
use tailpreview.Model.{Route, HealthCheck, VerificationCheck}
use tailpreview.Url.{Net}
use tailpreview.Errors.{Error, external, wrapped, unsupported_version}
use tailpreview.Config.{Resolved, defaults}
use tailpreview.Config.Decode.{
  Node, Yaml, decoded, unmarshal_health, unmarshal_verification, unmarshal_duration,
}
use tailpreview.Config.Substitute.{substitute}
use tailpreview.Config.Validate.{validate}

-- The fields of a document in the order in which they are written. A document with an unknown or a
-- repeated field, or with a field of another type, is refused by the parser.
pub data Field : Type 0 where
  version_field : ℕ → Field
  name_field : Text → Field
  routes_field : List Route → Field
  health_field verify_field : List Node → Field
  idle_field max_age_field : Node → Field

-- What Decode fills in; the lists of checks without their wrappers, and zero for no duration.
pub record File : Type 0 where
  pub version : ℕ
  pub name : Text
  pub routes : List Route
  pub health : List HealthCheck
  pub verify : List VerificationCheck
  pub idle : ℕ
  pub max_age : ℕ

abbrev pub empty_file : File
empty_file = record {
  version = 0;
  name = [];
  routes = [];
  health = [];
  verify = [];
  idle = 0;
  max_age = 0;
}

-- os.ReadFile, os.LookupEnv and the parser.
pub record Files : Type 0 where
  pub yaml : Yaml
  pub read : Text → Outcome Text Text
  pub environment : Text → Option Text
  pub parse : Text → Outcome Text (List Field)

-- Each entry of a list, up to the first that is refused.
unfoldable pub each : {A B : Type 0} → (A → Outcome Error B) → List A → Outcome Error (List B)
each f [] = ok []
each f (a ∷ rest) = do b ← f a; bs ← each f rest; ok (b ∷ bs)

-- One field of the document.
unfoldable pub decode_field : Yaml → Field → File → Outcome Error File
unfolding each
decode_field yaml (version_field n) file = ok (record file { version = n })
decode_field yaml (name_field s) file = ok (record file { name = s })
decode_field yaml (routes_field rs) file = ok (record file { routes = rs })
decode_field yaml (health_field nodes) file =
    each (unmarshal_health yaml) nodes >>= λ cs. ok (record file { health = cs })
decode_field yaml (verify_field nodes) file =
    each (unmarshal_verification yaml) nodes >>= λ cs. ok (record file { verify = cs })
decode_field yaml (idle_field node) file =
    unmarshal_duration yaml node >>= λ d. ok (record file { idle = d })
decode_field yaml (max_age_field node) file =
    unmarshal_duration yaml node >>= λ d. ok (record file { max_age = d })

unfoldable pub decode_fields : Yaml → List Field → File → Outcome Error File
unfolding decode_field
decode_fields yaml [] file = ok file
decode_fields yaml (f ∷ fs) file = decode_field yaml f file >>= decode_fields yaml fs

abbrev pub or_lifetime : ℕ → ℕ → ℕ
or_lifetime zero d = d
or_lifetime (suc n) d = suc n

abbrev pub or_checks : List VerificationCheck → List VerificationCheck → List VerificationCheck
or_checks [] cs = cs
or_checks (c ∷ rest) cs = c ∷ rest

-- Load's configuration: what the file says over the defaults.
unfoldable pub merged : Resolved → File → Resolved
merged r file = record r {
  name = file.name;
  routes = file.routes;
  health = file.health;
  verify = or_checks file.verify r.verify;
  idle_ttl = or_lifetime file.idle r.idle_ttl;
  max_age = or_lifetime file.max_age r.max_age;
}

abbrev pub parse_error : {A : Type 0} → Outcome Error A → Outcome Error A
parse_error (ok a) = ok a
parse_error (err e) = err (wrapped "parse" e)

-- Reading, substitution and decoding, up to the test of the version.
unfoldable pub read_file : Files → Text → List (Text × Text) → Outcome Error File
unfolding substitute decode_fields
read_file files path values = do
  raw ← decoded (files.read path)
  expanded ← substitute values files.environment raw
  fields ← parse_error (decoded (files.parse expanded))
  file ← parse_error (decode_fields files.yaml fields empty_file)
  if file.version == 1 then ok file else err (unsupported_version file.version)

-- The values that Load returns: a configuration even beside an error.
abbrev pub Loaded : Type 0
Loaded = Resolved × Outcome Error (Unit {0})

abbrev pub on_file : Net → Resolved → Outcome Error File → Loaded
on_file net start (err e) = (start, err e)
on_file net start (ok file) = (merged start file, validate net (merged start file))

unfoldable pub load : Net → Files → Text → Text → List (Text × Text) → Loaded
unfolding defaults merged
load net files path root values =
    let start : Resolved = record defaults { path = path; project_root = root } in
    if is_empty path then (start, ok tt) else on_file net start (read_file files path values)

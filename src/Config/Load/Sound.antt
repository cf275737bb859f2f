-- ===== src/Config/Load/Sound.antt =====
-- What Load of internal/config/config.go returns when it succeeds.
use tailpreview.Base.{
  ℕ, ◌≡◌, ◌⊎◌, inl, inr, true, none, some, List, arith, Bool-cases, subst, sym, ap, ◌∙◌,
}
use tailpreview.Base.Lists.{All}
use tailpreview.Base.Strings.{Text, is_empty}
use tailpreview.Base.Outcome.{Outcome, ok, err, >>=_ok, ok_injective, Outcome-cases}
use tailpreview.Url.{Net}
use tailpreview.Config.{Resolved, defaults}
use tailpreview.Config.Decode.{decoded}
use tailpreview.Config.Substitute.{substitute}
use tailpreview.Config.Validate.{validate}
use tailpreview.Config.Load.{
  Field, File, Files, empty_file, decode_fields, parse_error, merged, read_file, on_file, load,
}
use tailpreview.Config.Load.Optional.{
  LeavesFalse, IsUnmarkedField, IsOptional, decoded_ok, decode_fields-IsOptional,
  all_optional-AllHealthy, all_optional-wait,
}
use tailpreview.Health.{Steps, Site}
use tailpreview.Health.Check.{wait_healthy, check_all_once}
use tailpreview.Health.Wait.{check_all_once_iff-AllHealthy}

parse_error_ok : {A : Type 0} (r : Outcome _ A) (a : A) → parse_error r ≡ ok a → r ≡ ok a
parse_error_ok (ok b) a h = h
parse_error_ok (err e) a h = absurd (cc h)

module _ (files : Files) (path : Text) (values : List (Text × Text)) where
  -- The document that a successful read decodes: that of the file at the path, with its variables
  -- filled in.
  pub record IsRead (file : File) : Type 0 where
    pub raw : Text
    pub text : Text
    pub fields : List Field
    pub found : files.read path ≡ ok raw
    pub expanded : substitute values files.environment raw ≡ ok text
    pub parsed : files.parse text ≡ ok fields
    pub filled : decode_fields files.yaml fields empty_file ≡ ok file
    pub version : file.version ≡ 1

  read_file-IsRead : (file : File) → read_file files path values ≡ ok file → IsRead file
  unfolding read_file
  read_file-IsRead file h =
      let (raw, found, h1) = >>=_ok (decoded (files.read path)) _ file h in
      let (text, expanded, h2) = >>=_ok (substitute values files.environment raw) _ file h1 in
      let (fields, parsed, h3) = >>=_ok (parse_error (decoded (files.parse text))) _ file h2 in
      let (f, filled, h4) =
        >>=_ok (parse_error (decode_fields files.yaml fields empty_file)) _ file h3 in
      let same : f ≡ file = ground arith in
      record {
        raw = raw;
        text = text;
        fields = fields;
        found = decoded_ok (files.read path) raw found;
        expanded = expanded;
        parsed =
            decoded_ok (files.parse text) fields
              (parse_error_ok (decoded (files.parse text)) fields parsed);
        filled =
            subst (λ g. decode_fields files.yaml fields empty_file ≡ ok g) same
              (parse_error_ok _ f filled);
        version = ground arith;
      }

  -- The configuration without a file.
  abbrev pub without_file : Text → Resolved
  without_file root = record defaults { path = path; project_root = root }

  pub record IsLoaded (net : Net) (root : Text) (r : Resolved) : Type 0 where
    pub file : File
    pub read : read_file files path values ≡ ok file
    pub result : r ≡ merged (without_file root) file
    pub valid : validate net r ≡ ok tt

  on_file-IsLoaded :
      (net : Net) (root : Text) (r : Resolved)
      → on_file net (without_file root) (read_file files path values) ≡ (r, ok tt)
      → IsLoaded net root r
  on_file-IsLoaded net root r h = elim (Outcome-cases (read_file files path values)) [
    | inl (file, e) ↦
        let same : merged (without_file root) file ≡ r = ground arith in
        record { file = file; read = e; result = ground arith; valid = ground arith }
    | inr (x, e) ↦ absurd (ground arith)
  ]

  load-IsLoaded :
      (net : Net) (root : Text) (r : Resolved)
      → load net files path root values ≡ (r, ok tt)
      → (is_empty path ≡ true × r ≡ without_file root) ⊎ IsLoaded net root r
  unfolding load
  load-IsLoaded net root r h = elim (Bool-cases (is_empty path)) [
    | inl e ↦ inl (e, ground arith)
    | inr e ↦ inr (on_file-IsLoaded net root r (ground arith))
  ]

  -- Where every health check of the document in the file at the path is, with its variables filled in,
  -- a mapping that does not say `required`, and Decode leaves a field that is not given at its zero
  -- value, the configuration that Load returns has health checks that CheckOnce and Wait pass at once,
  -- whatever the services answer.
  pub unmarked_checks_pass :
      LeavesFalse files.yaml
      → (raw text : Text) (fields : List Field) → files.read path ≡ ok raw
      → substitute values files.environment raw ≡ ok text
      → files.parse text ≡ ok fields
      → All IsUnmarkedField fields
      → (net : Net) (root : Text) (r : Resolved) → load net files path root values ≡ (r, ok tt)
      → (site : Site) (timeout : ℕ) (h : Steps)
      → (check_all_once site h r.health ≡ none) × (wait_healthy site timeout r.health h ≡ some none)
  unfolding merged defaults
  unmarked_checks_pass zero_value raw text fields found expanded parsed unmarked net root r k site
        timeout h =
      let optional : All IsOptional r.health = elim (load-IsLoaded net root r k) [
        | inl e ↦ subst (λ s. All IsOptional s.health) (sym e.1) tt
        | inr l ↦
            let d = read_file-IsRead l.file l.read in
            let same_raw : raw ≡ d.raw = ok_injective (sym found ∙ d.found) in
            let same_text : text ≡ d.text =
              ok_injective
                (sym expanded ∙ ap (substitute values files.environment) same_raw ∙ d.expanded) in
            let same_fields : fields ≡ d.fields =
              ok_injective (sym parsed ∙ ap files.parse same_text ∙ d.parsed) in
            subst (λ s. All IsOptional s.health) (sym l.result)
              (decode_fields-IsOptional files.yaml zero_value d.fields empty_file l.file
                (subst (All IsUnmarkedField) same_fields unmarked) tt d.filled)
      ] in
      (
        (check_all_once_iff-AllHealthy site h r.health).1
            (all_optional-AllHealthy site h r.health optional),
        all_optional-wait site timeout r.health h optional,
      )

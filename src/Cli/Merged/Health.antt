-- ===== src/Cli/Merged/Health.antt =====
-- What the flags on health checks of `up` in cmd/tailpreview/main.go make of the checks: each check
-- with its range and its mark.
use tailpreview.Base.{
  ℕ, ◌≡◌, refl, sym, ap, ◌∙◌, Bool, true, false, ◌||◌, Option, none, some, List, [], ◌∷◌, ◌++◌, map,
  arith, if◌then◌else◌,
}
use tailpreview.Base.Lists.{any}
use tailpreview.Base.Strings.{Text, text_eq}
use tailpreview.Base.Outcome.{ok, >>=_ok}
use tailpreview.Model.{HealthCheck}
use tailpreview.Config.{Resolved}
use tailpreview.Arguments.{find_health, parse_health_range}
use tailpreview.Arguments.Written.{IsRange, parse_health_range-IsRange}
use tailpreview.Errors.{Error}
use tailpreview.Cli.Merged.First.{
  KeepsUrl, only_at, only_at_url, at_first, at_first_change, at_first_twice, at_first_same,
  at_first_none,
}
use tailpreview.Cli.Flags.{
  with_health_urls, change_health, changed_if, in_range, set_range, with_ranges, skip_health_verify,
  with_insecure_health,
}

-- A check of a URL as the flags make it.
abbrev pub plain_check : Bool → Text → HealthCheck
plain_check required url = record {
  url = url;
  required = required;
  min_code = 200;
  max_code = 399;
  insecure_skip_verify = false;
}

-- The required and the optional checks of the flags, or else those of the file.
abbrev pub flag_checks : List Text → List Text → List HealthCheck → List HealthCheck
flag_checks [] [] old = old
flag_checks [] (u ∷ us) old = map (plain_check false) (u ∷ us)
flag_checks (u ∷ us) optional old =
    map (plain_check true) (u ∷ us) ++ map (plain_check false) optional

pub with_health_urls_lem :
    (us optional : List Text) (r : Resolved)
    → (with_health_urls us optional r).health ≡ flag_checks us optional r.health
with_health_urls_lem [] [] r = refl
with_health_urls_lem [] (u ∷ us) r = refl
with_health_urls_lem (u ∷ us) optional r = refl

-- The last range that is given for a URL.
abbrev pub last_range : List (Text × ℕ × ℕ) → Text → ℕ × ℕ → ℕ × ℕ
last_range [] url r = r
last_range ((u, lo, hi) ∷ rs) url r = last_range rs url (if text_eq url u then (lo, hi) else r)

-- A check with the last range of its URL, and unverified if its URL is among these.
abbrev pub marked : List (Text × ℕ × ℕ) → List Text → HealthCheck → HealthCheck
marked ranges insecure c = record {
  url = c.url;
  required = c.required;
  min_code = (last_range ranges c.url (c.min_code, c.max_code)).0;
  max_code = (last_range ranges c.url (c.min_code, c.max_code)).1;
  insecure_skip_verify = any (text_eq c.url) insecure || c.insecure_skip_verify;
}

-- The ranges of the flags, one for each.
abbrev pub AreRanges : List Text → List (Text × ℕ × ℕ) → Type 0
AreRanges [] [] = Unit
AreRanges [] (_ ∷ _) = ⊥
AreRanges (_ ∷ _) [] = ⊥
AreRanges (raw ∷ raws) (r ∷ rs) = IsRange raw r × AreRanges raws rs

changed_if_lem :
    (o : Option HealthCheck) (e : Error) (cs ds : List HealthCheck)
    → changed_if o e cs ≡ ok ds
    → cs ≡ ds
changed_if_lem none e cs ds h = absurd (cc h)
changed_if_lem (some c) e cs ds h = ground arith

-- The ranges one after the other, and the marks.
abbrev with_range : Text × ℕ × ℕ → HealthCheck → HealthCheck
with_range (url, lo, hi) = only_at (in_range lo hi) url

abbrev ranged : List (Text × ℕ × ℕ) → HealthCheck → HealthCheck
ranged [] c = c
ranged (r ∷ rs) c = ranged rs (with_range r c)

with_ranges_lem :
    (raws : List Text) (cs ds : List HealthCheck)
    → with_ranges raws cs ≡ ok ds
    → (rs : List (Text × ℕ × ℕ)) × AreRanges raws rs × (ds ≡ at_first (ranged rs) [] cs)
unfolding with_ranges
with_ranges_lem [] cs ds h =
    let same : cs ≡ ds = ground arith in ([], tt, sym same ∙ sym (at_first_none [] cs))
with_ranges_lem (raw ∷ more) cs ds h =
    let ((url, lo, hi), e0, h1) = >>=_ok (parse_health_range raw) _ ds h in
    let (es, e, h2) = >>=_ok (set_range (url, lo, hi) cs) _ ds h1 in
    let same = changed_if_lem (find_health cs url) _ (change_health (in_range lo hi) url cs) es e in
    let (rs, good, p) = with_ranges_lem more es ds h2 in
    (
      (url, lo, hi) ∷ rs,
      (parse_health_range-IsRange raw url lo hi e0, good),
      p
          ∙ ap (at_first (ranged rs) [])
              (sym same ∙ at_first_change (in_range lo hi) url [] cs refl)
          ∙ at_first_twice (only_at (in_range lo hi) url) (ranged rs) [] cs
              (only_at_url (in_range lo hi) url (λ c. refl)),
    )

abbrev trusted : List Text → HealthCheck → HealthCheck
trusted [] c = c
trusted (u ∷ us) c = trusted us (only_at skip_health_verify u c)

with_insecure_health_lem :
    (urls : List Text) (cs ds : List HealthCheck)
    → with_insecure_health urls cs ≡ ok ds
    → ds ≡ at_first (trusted urls) [] cs
unfolding with_insecure_health
with_insecure_health_lem [] cs ds h =
    let same : cs ≡ ds = ground arith in sym same ∙ sym (at_first_none [] cs)
with_insecure_health_lem (url ∷ more) cs ds h =
    let (es, e, h1) =
      >>=_ok (changed_if (find_health cs url) _ (change_health skip_health_verify url cs)) _ ds h in
    let same =
      changed_if_lem (find_health cs url) _ (change_health skip_health_verify url cs) es e in
    with_insecure_health_lem more es ds h1
    ∙ ap (at_first (trusted more) []) (sym same ∙ at_first_change skip_health_verify url [] cs refl)
    ∙ at_first_twice (only_at skip_health_verify url) (trusted more) [] cs
        (only_at_url skip_health_verify url (λ c. refl))

or_true : (b : Bool) → b || true ≡ true
or_true true = refl
or_true false = refl

-- Both, as the fields of the check.
trusted_lem :
    (urls : List Text) (c : HealthCheck)
    → trusted urls c
      ≡ record c { insecure_skip_verify = any (text_eq c.url) urls || c.insecure_skip_verify }
trusted_lem [] c = refl
trusted_lem (u ∷ us) c = by_url (text_eq c.url u) (trusted_lem us)
  where
    by_url :
        (d : Bool)
        → ((x : HealthCheck)
            → trusted us x ≡ record x {
              insecure_skip_verify = any (text_eq x.url) us || x.insecure_skip_verify;
            })
        → trusted us (if d then skip_health_verify c else c) ≡ record c {
          insecure_skip_verify =
              (if d then true else any (text_eq c.url) us) || c.insecure_skip_verify;
        }
    by_url true more =
        more (skip_health_verify c)
        ∙ ap (λ b. record c { insecure_skip_verify = b }) (or_true (any (text_eq c.url) us))
    by_url false more = more c

ranged_lem :
    (rs : List (Text × ℕ × ℕ)) (c : HealthCheck)
    → ranged rs c ≡ record c {
      min_code = (last_range rs c.url (c.min_code, c.max_code)).0;
      max_code = (last_range rs c.url (c.min_code, c.max_code)).1;
    }
ranged_lem [] c = refl
ranged_lem ((u, lo, hi) ∷ rs) c = by_url (text_eq c.url u) (ranged_lem rs)
  where
    by_url :
        (d : Bool)
        → ((x : HealthCheck)
            → ranged rs x ≡ record x {
              min_code = (last_range rs x.url (x.min_code, x.max_code)).0;
              max_code = (last_range rs x.url (x.min_code, x.max_code)).1;
            })
        → ranged rs (if d then in_range lo hi c else c) ≡ record c {
          min_code = (last_range rs c.url (if d then (lo, hi) else (c.min_code, c.max_code))).0;
          max_code = (last_range rs c.url (if d then (lo, hi) else (c.min_code, c.max_code))).1;
        }
    by_url true more = more (in_range lo hi c)
    by_url false more = more c

both_lem :
    (rs : List (Text × ℕ × ℕ)) (urls : List Text) (c : HealthCheck)
    → trusted urls (ranged rs c) ≡ marked rs urls c
both_lem rs urls c = ap (trusted urls) (ranged_lem rs c) ∙ trusted_lem urls _

ranged_url : (rs : List (Text × ℕ × ℕ)) → KeepsUrl (ranged rs)
ranged_url rs c = ap (λ d. d.url) (ranged_lem rs c)

-- The flags on ranges and on certificates together: the first check of each URL has the last range
-- that is given for it, and is unverified if it is named.
pub marked_lem :
    (raws urls : List Text) (cs ds es : List HealthCheck)
    → with_ranges raws cs ≡ ok ds
    → with_insecure_health urls ds ≡ ok es
    → (rs : List (Text × ℕ × ℕ)) × AreRanges raws rs × (es ≡ at_first (marked rs urls) [] cs)
marked_lem raws urls cs ds es h k =
    let (rs, good, p) = with_ranges_lem raws cs ds h in
    (
      rs,
      good,
      with_insecure_health_lem urls ds es k
          ∙ ap (at_first (trusted urls) []) p
          ∙ at_first_twice (ranged rs) (trusted urls) [] cs (ranged_url rs)
          ∙ at_first_same _ (marked rs urls) [] cs (both_lem rs urls),
    )

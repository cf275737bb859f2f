-- ===== src/Service/Select.antt =====
-- The functions on lists of previews at the end of internal/app/service.go.
use tailpreview.Base.{
  ℕ, Bool, true, false, not, ◌&&◌, ◌||◌, Option, none, some, List, [], ◌∷◌, ltb, if◌then◌else◌,
}
use tailpreview.Base.Lists.{any, filter}
use tailpreview.Base.Strings.{Text, text_eq, base}
use tailpreview.Model.{Route, HealthCheck, Preview}
use tailpreview.Url.{Url, Net}
use tailpreview.Config.{default_verify}

-- indexByID and findPreview return a position, or -1: here the list split at the position, or `none`.
pub record Found : Type 0 where
  pub before : List Preview
  pub preview : Preview
  pub after : List Preview

abbrev pub under : Preview → Option Found → Option Found
under p none = none
under p (some f) = some (record f { before = p ∷ f.before })

unfoldable pub find_by : (Preview → Bool) → List Preview → Option Found
find_by test [] = none
find_by test (p ∷ ps) =
    if test p
    then some (record { before = []; preview = p; after = ps })
    else under p (find_by test ps)

abbrev pub has_id : Text → Preview → Bool
has_id id p = text_eq p.id id

abbrev pub is_selected : Text → Preview → Bool
is_selected sel p = text_eq p.id sel || text_eq p.name sel || text_eq p.project_root sel

unfoldable pub index_by_id : List Preview → Text → Option Found
index_by_id ps id = find_by (has_id id) ps

unfoldable pub find_preview : List Preview → Text → Option Found
find_preview ps sel = find_by (is_selected sel) ps

unfoldable pub without_id : List Preview → Text → List Preview
without_id ps id = filter (λ p. not (has_id id p)) ps

unfoldable pub has_same_project : List Preview → Preview → Bool
has_same_project ps current =
    any
      (λ p. not (has_id current.id p) && text_eq (base p.project_root) (base current.project_root))
      ps

-- sort.Slice of at most twelve elements is insertion sort, which keeps the order of equal keys.
module _ (key : Preview → ℕ) where
  unfoldable pub insert_by : Preview → List Preview → List Preview
  insert_by p [] = p ∷ []
  insert_by p (q ∷ qs) = if ltb (key q) (key p) then q ∷ insert_by p qs else p ∷ q ∷ qs

  -- From the right, so that an element stands before its equals that follow it.
  unfoldable pub sort_by : List Preview → List Preview
  unfolding insert_by
  sort_by [] = []
  sort_by (p ∷ ps) = insert_by p (sort_by ps)

abbrev pub by_port : Preview → ℕ
by_port p = p.external_port

abbrev pub by_use : Preview → ℕ
by_use p = p.last_used_at

unfoldable pub sort_previews : List Preview → List Preview
sort_previews ps = sort_by by_port ps

-- `active[host] > 0` in the map of request counts.
unfoldable pub is_active_host : List (Text × ℕ) → Text → Bool
is_active_host [] host = false
is_active_host ((h, n) ∷ m) host = if text_eq h host then ltb 0 n else is_active_host m host

abbrev pub is_busy : List (Text × ℕ) → Option Url → Bool
is_busy active none = false
is_busy active (some u) = is_active_host active u.host

unfoldable pub preview_has_active_requests : Net → Preview → List (Text × ℕ) → Bool
preview_has_active_requests net p active = any (λ r. is_busy active (net.parse r.upstream)) p.routes

abbrev pub default_check : Route → HealthCheck
default_check r = record {
  url = r.upstream;
  required = true;
  min_code = 100;
  max_code = 499;
  insecure_skip_verify = r.insecure_skip_verify;
}

default_checks_from : List Text → List Route → List HealthCheck
default_checks_from seen [] = []
default_checks_from seen (r ∷ rs) =
    if any (text_eq r.upstream) seen
    then default_checks_from seen rs
    else default_check r ∷ default_checks_from (r.upstream ∷ seen) rs

unfoldable pub default_health_checks : List Route → List HealthCheck
unfolding default_checks_from
default_health_checks rs = default_checks_from [] rs

abbrev pub or_default {ℓ} : {A : Type ℓ} → List A → List A → List A
or_default [] d = d
or_default (x ∷ xs) d = x ∷ xs

unfoldable pub normalize_preview : Preview → Preview
normalize_preview p = record p {
  handoff_url = or_default p.handoff_url p.url;
  verify = or_default p.verify default_verify;
  health = or_default p.health (default_health_checks p.routes);
}

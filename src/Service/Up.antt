-- ===== src/Service/Up.antt =====
-- Service.Up, in its three parts: the checks before the lock, the plan, and its execution.
use tailpreview.Base.{
  ℕ, String, Bool, true, false, not, ◌&&◌, ◌||◌, Option, none, some, List, [], ◌∷◌, ◌++◌, ◌==◌,
  if◌then◌else◌,
}
use tailpreview.Base.Strings.{Text, codes, text_eq, is_empty, itoa}
use tailpreview.Base.Outcome.{Outcome, ok, err}
use tailpreview.Model.{Preview, Registry, VerificationReport}
use tailpreview.Errors.{Error, plain, wrapped}
use tailpreview.Host.{Service, Status}
use tailpreview.Host.Monad.{M, pure, fail, lift, attempt, ◌>>=◌, ◌>>◌}
use tailpreview.Host.Calls.{
  now, ask, wait, tailscale_status, expose, remove, apply, verify, remove_logs, save, with_registry,
}
use tailpreview.Config.{Resolved}
use tailpreview.Config.Validate.{validate}
use tailpreview.Service.Select.{
  Found, index_by_id, without_id, has_same_project, sort_previews, default_health_checks,
  or_default,
}
use tailpreview.Service.Naming.{choose_name}
use tailpreview.Service.Usage.{elapsed, refresh_usage, prune_reservations, reserve}
use tailpreview.Service.Port.{Choice, choose_port}

pub record UpRequest : Type 0 where
  pub config : Resolved
  pub name : Text
  pub port : ℕ
  pub skip_health : Bool

pub record UpResult : Type 0 where
  pub preview : Preview
  pub evicted : Option Preview
  pub warnings : List String

abbrev pub cookie_advice : String
cookie_advice =
    "multiple previews from this project share one hostname; if authentication sessions collide, configure unique cookie names per worktree"

-- What the execution needs: the registry in memory, the preview that was registered under the
-- identifier, the ports, and the new preview.
pub record Plan : Type 0 where
  pub registry : Registry
  pub existing : Option Preview
  pub choice : Choice
  pub preview : Preview
  pub time : ℕ

abbrev pub is_ready : Status → Bool
is_ready st = text_eq st.backend_state (codes "Running") && not (is_empty st.dns_name)

unfoldable pub require : Bool → Error → M (Unit {0})
require b e = if b then pure tt else fail e

abbrev pub existing_of : Option Found → Option Preview
existing_of none = none
existing_of (some f) = some f.preview

-- `created` and `pinned` of the new preview.
unfoldable pub created_at : ℕ → Resolved → Option Preview → ℕ
created_at now cfg none = now
created_at now cfg (some p) =
    if elapsed now p.created_at cfg.max_age || elapsed now p.last_used_at cfg.idle_ttl
    then now
    else p.created_at

abbrev pub was_pinned : Option Preview → Bool
was_pinned none = false
was_pinned (some p) = p.pinned

-- fmt.Sprintf("https://%s:%d", host, port)
abbrev pub origin_url : Text → ℕ → Text
origin_url host port = codes "https://" ++ (host ++ (codes ":" ++ itoa port))

unfoldable pub make_preview :
    Resolved → Text → Text → Text → Choice → ℕ → Option Preview → List Preview → Preview
make_preview cfg id name dns_name choice now existing others = record p {
  cookie_warning = has_same_project others p;
}
  where
    p : Preview
    p = record {
      id = id;
      name = name;
      project_root = cfg.project_root;
      config_path = cfg.path;
      external_port = choice.port;
      gateway_port = choice.gateway;
      url = origin_url dns_name choice.port;
      handoff_url = origin_url dns_name choice.port;
      routes = cfg.routes;
      health = cfg.health;
      verify = cfg.verify;
      created_at = created_at now cfg existing;
      updated_at = now;
      last_used_at = now;
      idle_ttl = cfg.idle_ttl;
      max_age = cfg.max_age;
      pinned = was_pinned existing;
      status = "active";
      unhealthy_since = none;
      cookie_warning = false;
      last_health_error = [];
      last_verified_at = none;
    }

-- From the lock to the new preview; nothing outside is changed.
unfoldable pub plan_up : Service → UpRequest → Registry → M Plan
plan_up s request loaded = do
  time ← now s
  log_time ← ask s.host.log_time
  let reg = prune_reservations time (refresh_usage log_time time loaded)
  status ← tailscale_status s
  require (is_ready status) (plain "Tailscale is not running with a MagicDNS hostname")
  let id = s.host.preview_id request.config.project_root
  name ← lift (choose_name reg.previews id request.name request.config)
  let existing = existing_of (index_by_id reg.previews id)
  choice ← choose_port s reg id request.port
  pure (record {
    registry = reg;
    existing = existing;
    choice = choice;
    preview = make_preview request.config id name status.dns_name choice time existing reg.previews;
    time = time;
  })

-- The list that Caddy is to serve.
abbrev pub without_evicted : List Preview → Option Preview → List Preview
without_evicted ps none = ps
without_evicted ps (some v) = without_id ps v.id

unfoldable pub desired_previews : Plan → List Preview
desired_previews plan = sort_previews (
    without_evicted (without_id plan.registry.previews plan.preview.id) plan.choice.evicted
    ++ plan.preview ∷ [])

-- `evicted != nil && evicted.ExternalPort != port`
abbrev pub moved_eviction : Choice → Option Preview
moved_eviction c = elim c.evicted [
  | none ↦ none
  | some v ↦ if v.external_port == c.port then none else some v
]

abbrev pub expose_again : Service → Option Preview → M (Unit {0})
expose_again s none = pure tt
expose_again s (some v) = attempt (expose s v.external_port v.gateway_port)

abbrev pub or_else : Option Preview → Option Preview → Option Preview
or_else none b = b
or_else (some a) b = some a

-- The steps that undo what was done, in the three failing paths after Expose.
unfoldable pub undo_expose : Service → Plan → M (Unit {0})
undo_expose s plan = do
  attempt (apply s plan.registry.previews)
  expose_again s (moved_eviction plan.choice)

unfoldable pub undo_all : Service → Plan → Option Preview → M (Unit {0})
undo_all s plan owner = do
  attempt (remove s plan.choice.port)
  attempt (apply s plan.registry.previews)
  expose_again s owner

-- `if err := call; err != nil { undo; return err }`
abbrev pub undone : {A : Type 0} → Outcome Error A → M (Unit {0}) → (Error → Error) → M A
undone (ok a) undo f w = (ok a, w)
undone (err e) undo f w = (err (f e), (undo w).1)

abbrev pub or_undo : {A : Type 0} → M A → M (Unit {0}) → (Error → Error) → M A
or_undo m undo f w = let (r, w') = m w in undone r undo f w'

abbrev pub same_error : Error → Error
same_error e = e

-- The last steps: the preview with the time of its verification, and the list that is saved.
abbrev pub verified_preview : Plan → VerificationReport → Preview
verified_preview plan report = record preview { last_verified_at = some report.verified_at }
  where
    open plan use {preview}

unfoldable pub saved_registry : Plan → VerificationReport → Registry
saved_registry plan report = record registry {
  previews =
      sort_previews
        (without_id (desired_previews plan) preview.id ++ verified_preview plan report ∷ []);
  reservations =
      reserve preview.id (record { port = choice.port; last_seen = time }) registry.reservations;
}
  where
    open plan use {registry, preview, choice, time}

abbrev pub remove_moved : Service → Plan → Option Preview → M (Unit {0})
remove_moved s plan none = pure tt
remove_moved s plan (some v) =
    or_undo (remove s v.external_port) (undo_all s plan (some v)) (wrapped "remove evicted preview")

abbrev pub forget_logs : Service → Option Preview → M (Unit {0})
forget_logs s none = pure tt
forget_logs s (some v) = remove_logs s v.id

abbrev pub warnings_for : Preview → List String
warnings_for p = if p.cookie_warning then cookie_advice ∷ [] else []

unfoldable pub execute_up : Service → Plan → M UpResult
execute_up s plan = do
  apply s (desired_previews plan)
  or_undo (expose s plan.choice.port plan.choice.gateway) (undo_expose s plan) same_error
  report ←
      or_undo (verify s plan.preview.url plan.preview.verify)
        (undo_all s plan (or_else plan.existing plan.choice.evicted))
        (wrapped "verify final preview URL")
  remove_moved s plan (moved_eviction plan.choice)
  or_undo (save s (saved_registry plan report))
      (undo_all s plan (or_else plan.existing plan.choice.evicted)) same_error
  forget_logs s plan.choice.evicted
  pure (record {
    preview = verified_preview plan report;
    evicted = plan.choice.evicted;
    warnings = warnings_for plan.preview;
  })

-- The health checks that default to one for each upstream.
abbrev pub with_health : UpRequest → UpRequest
with_health request = record request {
  config = record config {
    health = or_default config.health (default_health_checks config.routes);
  };
}
  where
    open request use {config}

abbrev pub wait_unless : Service → Bool → Resolved → M (Unit {0})
wait_unless s true cfg = pure tt
wait_unless s false cfg = wait s cfg.health

unfoldable pub up_locked : Service → UpRequest → Registry → M UpResult
up_locked s request loaded = do plan ← plan_up s request loaded; execute_up s plan

unfoldable pub up : Service → UpRequest → M UpResult
up s request = do
  require s.has_verifier (plain "final preview verifier is not configured")
  let request' = with_health request
  lift (validate s.net request'.config)
  wait_unless s request.skip_health request'.config
  with_registry s (up_locked s request')

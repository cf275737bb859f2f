-- ===== src/Tests/Proxy.antt =====
-- The theorems on Caddy's configuration and its manager at the two previews.
use tailpreview.Base.{
  ℕ, ◌+◌, ◌*◌, ◌≡◌, refl, true, false, Option, none, some, List, [], ◌∷◌, arith, if◌then◌else◌, ltb,
  subst,
}
use tailpreview.Base.Strings.{
  Text, codes, text_eq, cut, trim_space, is_space, trim_left, trim_right,
}
use tailpreview.Base.Outcome.{ok, err}
use tailpreview.Errors.{external}
use tailpreview.Json.{Json}
use tailpreview.Config.Load.{each}
use tailpreview.Caddy.{Paths}
use tailpreview.Caddy.Config.{generate, add_previews, build_route}
use tailpreview.Caddy.Start.{
  Launch, Ticks, Answers, StartError, start_caddy_process, poll_pause, start_lem,
}
use tailpreview.Caddy.Manager.{
  World, Calls, candidate, is_current, apply_previews, read_active_requests, is_running,
}
use tailpreview.Caddy.Applied.{IsSynced, IsApplication, apply_previews-IsApplication}
use tailpreview.Caddy.Stale.{Accepts, stale_apply}
use tailpreview.Caddy.Requests.{count_of, total_of, read_active_requests_lem}
use tailpreview.Tests.Fixtures.{toy_net, first_preview, stale_preview}

abbrev paths : Paths
paths = record {
  logs_dir = codes "/s/logs";
  caddy_json = codes "/s/caddy.json";
  caddy_socket = codes "/s/caddy.sock";
}

-- The socket answers at the third turn.
abbrev launch : Launch
launch = record {
  opening = none;
  starting = none;
  start_time = 7;
  now = λ n. 7 + n * poll_pause;
  is_running = λ n. if ltb n 2 then false else true;
  stopped = λ n. none;
}

ticks : Ticks launch
ticks = record { first = omega arith; pauses = λ n. omega arith }

start_lem_example :
    ((r : Option StartError) × (start_caddy_process launch ≡ some r))
    × ((k : ℕ) → Answers launch k → start_caddy_process launch ≡ some none)
start_lem_example = start_lem launch ticks

-- MarshalIndent answers with one text for the first preview's configuration.
abbrev calls : Text → Option Text → Calls
calls config failure = record {
  net = toy_net;
  paths = paths;
  marshal = λ json. ok config;
  write_candidate = none;
  validate = none;
  load = ok 200;
  start = none;
  replace = failure;
  stop = ok 200;
}

abbrev running : World
running = record { file = some (codes "one\n"); caddy = some (codes "one") }

running-IsSynced : IsSynced running
unfolding trim_space is_space trim_left trim_right text_eq
running-IsSynced c h =
    let same : codes "one" ≡ c = ground arith in
    subst (λ x. is_current running.file x ≡ true) same refl

apply_previews-IsApplication_example :
    IsApplication
      (calls (codes "two") none)
      (stale_preview ∷ [])
      running
      (apply_previews (calls (codes "two") none) (stale_preview ∷ []) running)
apply_previews-IsApplication_example =
    apply_previews-IsApplication (calls (codes "two") none) (stale_preview ∷ []) running
      running-IsSynced

first-Accepts :
    (failure : Option Text) → Accepts (calls (codes "two") failure) stale_preview [] (codes "two")
unfolding candidate generate add_previews each build_route cut
first-Accepts failure = record { generated = refl; written = refl; validated = refl }

second-Accepts : Accepts (calls (codes "one") none) first_preview [] (codes "one")
unfolding candidate generate add_previews each build_route cut
second-Accepts = record { generated = refl; written = refl; validated = refl }

is_old : is_current running.file (codes "one") ≡ true
unfolding trim_space is_space trim_left trim_right text_eq
is_old = refl

is_new : is_current running.file (codes "two") ≡ false
unfolding trim_space is_space trim_left trim_right text_eq
is_new = refl

stale_apply_example :
    (apply_previews (calls (codes "two") (some (codes "full"))) (stale_preview ∷ []) running
      ≡ (err (external (codes "full")), record running { caddy = some (codes "two") }))
    × (apply_previews
          (calls (codes "one") none)
          (first_preview ∷ [])
          (record running { caddy = some (codes "two") })
        ≡ (ok tt, record running { caddy = some (codes "two") }))
stale_apply_example =
    stale_apply (calls (codes "two") (some (codes "full"))) (calls (codes "one") none) first_preview
      stale_preview [] [] (codes "one") (codes "two") (codes "one") (codes "full") running refl
      is_old is_new (first-Accepts (some (codes "full"))) second-Accepts refl refl

read_active_requests_lem_example :
    (m : List (Text × ℕ)) × (read_active_requests
        (ok (200, ok ((codes "a", 1) ∷ (codes "b", 2) ∷ (codes "a", 3) ∷ [])))
        running
      ≡ ok m)
    × (count_of (codes "a") m ≡ (
        if is_running running.caddy
        then total_of (codes "a") ((codes "a", 1) ∷ (codes "b", 2) ∷ (codes "a", 3) ∷ [])
        else 0))
read_active_requests_lem_example =
    read_active_requests_lem ((codes "a", 1) ∷ (codes "b", 2) ∷ (codes "a", 3) ∷ []) running
      (codes "a")

-- ===== src/Tests/Published.antt =====
-- The theorems on choosePort, GC and Up at the fixtures.
use tailpreview.Base.{◌*◌, ◌≡◌, refl, none, some, [], ◌∷◌}
use tailpreview.Base.Strings.{codes, cut, text_eq}
use tailpreview.Base.Outcome.{ok, err}
use tailpreview.Model.{VerificationReport}
use tailpreview.Config.{hour}
use tailpreview.Errors.{Error, external, wrapped}
use tailpreview.Host.{Host, Service}
use tailpreview.Host.Calls.{
  now, ask, active_requests, check_once, port_available, apply, expose, remove, verify, save,
  remove_logs,
}
use tailpreview.Service.Select.{
  index_by_id, find_by, sort_by, insert_by, preview_has_active_requests, is_active_host,
}
use tailpreview.Service.Usage.{refresh_usage, used_at, reserve, prune_reservations, reservation}
use tailpreview.Service.Port.{
  Choice, ports_of, choose_port, allocate, candidates, pool, ports_from, port_start, port_end,
  add_missing, contains_int, first_free, gateway_for, evict, eviction_candidates,
}
use tailpreview.Service.Valid.Choice.{Chosen, choose_port-Chosen}
use tailpreview.Service.Eviction.{IsVictim, evict-IsVictim, active_now}
use tailpreview.Service.Down.{ActionResult}
use tailpreview.Service.Gc.{
  collect, sweep, sweep_one, mark_health, is_garbage, is_expired, is_unhealthy_expired,
  finish_removal, remove_all, remove_all_logs,
}
use tailpreview.Service.Collected.{IsCollected, collect-IsCollected}
use tailpreview.Service.Up.{Plan, UpResult, execute_up, undo_all, verified_preview}
use tailpreview.Service.Rollback.{
  IsUndone, execute_up-IsUndone, IsPublished, execute_up-IsPublished,
}
use tailpreview.Tests.Fixtures.{
  good, good_host, service_on, start, two_previews, stale_preview, preview_on,
}
use tailpreview.Tests.Witnesses.{two_previews-IsValid}

abbrev free_choice : Choice
free_choice = record { port = 8445; gateway = 18082; evicted = none }

chooses : (choose_port good two_previews (codes "/a/three") 0 start).0 ≡ ok free_choice
unfolding choose_port index_by_id find_by allocate candidates pool ports_from port_start port_end
    add_missing contains_int first_free gateway_for ask port_available text_eq reservation
chooses = refl

choose_port-Chosen_example : Chosen good two_previews.previews (codes "/a/three") free_choice
choose_port-Chosen_example =
    choose_port-Chosen good two_previews (codes "/a/three") 0 start free_choice two_previews-IsValid
      chooses

evicts :
    (evict good two_previews.previews start).0 ≡ ok (ports_of stale_preview (some stale_preview))
unfolding cut evict active_requests eviction_candidates sort_by insert_by
    preview_has_active_requests is_active_host
evicts = refl

evict-IsVictim_example :
    IsVictim good start two_previews.previews (ports_of stale_preview (some stale_preview))
evict-IsVictim_example =
    evict-IsVictim good start two_previews.previews (ports_of stale_preview (some stale_preview))
      evicts

abbrev collected : ActionResult
collected = record { action = "gc"; preview = none; removed = stale_preview ∷ [] }

collects : collect good two_previews start ≡ (ok collected, (collect good two_previews start).1)
unfolding cut collect now ask active_requests refresh_usage used_at sweep check_once sweep_one
    mark_health is_garbage is_expired is_unhealthy_expired preview_has_active_requests
    is_active_host finish_removal apply remove_all remove save prune_reservations reserve
    remove_all_logs remove_logs
collects = refl

collect-IsCollected_example :
    IsCollected good
      (1000 * hour)
      (active_now good start)
      two_previews
      collected
      (collect good two_previews start).1
collect-IsCollected_example =
    collect-IsCollected good two_previews start (collect good two_previews start).1 collected
      collects

abbrev third_plan : Plan
third_plan = record {
  registry = two_previews;
  existing = none;
  choice = free_choice;
  preview = preview_on (codes "/a/three") 8445 18082 (1000 * hour);
  time = 1000 * hour;
}

abbrev checked_report : VerificationReport
checked_report = record { verified_at = 7; checks = [] }

abbrev up_result : UpResult
up_result = record {
  preview = verified_preview third_plan checked_report;
  evicted = none;
  warnings = [];
}

publishes : execute_up good third_plan start ≡ (ok up_result, (execute_up good third_plan start).1)
unfolding execute_up apply expose verify save
publishes = refl

execute_up-IsPublished_example :
    IsPublished good third_plan start (execute_up good third_plan start).1 up_result
execute_up-IsPublished_example =
    execute_up-IsPublished good third_plan start (execute_up good third_plan start).1 up_result refl
      publishes

-- The final URL cannot be verified.
abbrev unverifiable : Service
unverifiable = service_on (record h { verify = λ _ _ _. err (external []) })
  where
    h : Host
    h = good_host (8443 ∷ 8444 ∷ [])

abbrev no_verification : Error
no_verification = wrapped "verify final preview URL" (external [])

undoes :
    execute_up unverifiable third_plan start
    ≡ (err no_verification, (execute_up unverifiable third_plan start).1)
unfolding execute_up apply expose verify undo_all remove
undoes = refl

execute_up-IsUndone_example :
    IsUndone unverifiable third_plan [] (execute_up unverifiable third_plan start).1.history
execute_up-IsUndone_example =
    execute_up-IsUndone unverifiable third_plan start (execute_up unverifiable third_plan start).1
      no_verification refl undoes

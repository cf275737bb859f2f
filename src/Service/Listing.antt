-- ===== src/Service/Listing.antt =====
-- Service.List and Service.SetPinned.
use tailpreview.Base.{Bool, some, List, [], map, if◌then◌else◌}
use tailpreview.Base.Strings.{Text}
use tailpreview.Model.{Preview, Registry}
use tailpreview.Host.{Service}
use tailpreview.Host.Monad.{M, pure, ◌>>=◌, ◌>>◌}
use tailpreview.Host.Calls.{now, ask, save, with_registry}
use tailpreview.Service.Select.{Found, find_preview, normalize_preview, sort_previews}
use tailpreview.Service.Usage.{refresh_usage}
use tailpreview.Service.Check.{found_or_fail, put_back}
use tailpreview.Service.Down.{ActionResult}

-- The registry as List saves it.
abbrev pub normalize_all : Registry → Registry
normalize_all reg = record reg { previews = map normalize_preview reg.previews }

unfoldable pub list_previews : Service → Registry → M (List Preview)
list_previews s loaded = do
  time ← now s
  log_time ← ask s.host.log_time
  let reg = normalize_all (refresh_usage log_time time loaded)
  save s reg
  pure (sort_previews reg.previews)

unfoldable pub list : Service → M (List Preview)
list s = with_registry s (list_previews s)

unfoldable pub pin_found : Service → Bool → Registry → Found → M ActionResult
pin_found s pinned reg f = do
  time ← now s
  let p = record (f.preview) { pinned = pinned; updated_at = time }
  save s (record reg { previews = put_back f p })
  pure (record { action = if pinned then "pin" else "unpin"; preview = some p; removed = [] })

unfoldable pub set_pinned : Service → Text → Bool → M ActionResult
set_pinned s selector pinned =
    with_registry s
      (λ reg. found_or_fail selector (find_preview reg.previews selector) (pin_found s pinned reg))

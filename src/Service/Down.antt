-- ===== src/Service/Down.antt =====
-- Service.Down: the listener of one preview is removed, and its port is reserved.
use tailpreview.Base.{String, Option, some, List, [], ◌∷◌, ◌++◌}
use tailpreview.Base.Strings.{Text}
use tailpreview.Model.{Preview, Registry}
use tailpreview.Host.{Service}
use tailpreview.Host.Monad.{M, pure, attempt, ◌>>=◌, ◌>>◌}
use tailpreview.Host.Calls.{now, expose, remove, apply, remove_logs, save, with_registry}
use tailpreview.Service.Select.{Found, find_preview}
use tailpreview.Service.Usage.{reserve}
use tailpreview.Service.Up.{or_undo, same_error}
use tailpreview.Service.Check.{found_or_fail}

-- ActionResult of Down, SetPinned and GC.
pub record ActionResult : Type 0 where
  pub action : String
  pub preview : Option Preview
  pub removed : List Preview

abbrev pub rest_of : Found → List Preview
rest_of f = f.before ++ f.after

unfoldable pub undo_down : Service → Found → M (Unit {0})
undo_down s f = do
  attempt (apply s (rest_of f ++ f.preview ∷ []))
  attempt (expose s f.preview.external_port f.preview.gateway_port)

unfoldable pub down_found : Service → Registry → Found → M ActionResult
down_found s reg f = do
  apply s (rest_of f)
  or_undo (remove s f.preview.external_port) (attempt (apply s reg.previews)) same_error
  time ← now s
  or_undo
      (save s (record reg {
        previews = rest_of f;
        reservations =
            reserve f.preview.id (record { port = f.preview.external_port; last_seen = time })
              reg.reservations;
      }))
      (undo_down s f) same_error
  remove_logs s f.preview.id
  pure (record { action = "down"; preview = some f.preview; removed = [] })

unfoldable pub down : Service → Text → M ActionResult
down s selector =
    with_registry s
      (λ reg. found_or_fail selector (find_preview reg.previews selector) (down_found s reg))

-- ===== src/Caddy/Stale.antt =====
-- Apply of internal/caddy/manager.go after one that could not write the configuration file.
use tailpreview.Base.{◌≡◌, ap, ◌∙◌, true, false, ◌&&◌, none, some, List, ◌∷◌, arith}
use tailpreview.Base.Strings.{Text}
use tailpreview.Base.Outcome.{ok, err}
use tailpreview.Errors.{external}
use tailpreview.Model.{Preview}
use tailpreview.Caddy.Manager.{
  World, Calls, is_running, load, posted, run_with, continue, replaced, with_line_end, is_current,
  on_current, on_validated, on_written, on_generated, candidate, apply_previews,
}

-- The configuration is generated, written as a candidate and valid.
pub record Accepts (calls : Calls) (p : Preview) (ps : List Preview) (config : Text) : Type 0 where
  pub generated : candidate calls (p ∷ ps) ≡ ok config
  pub written : calls.write_candidate ≡ none
  pub validated : calls.validate ≡ none

accepted :
    (calls : Calls) (p : Preview) (ps : List Preview) (config : Text) (w : World)
    → Accepts calls p ps config
    → apply_previews calls (p ∷ ps) w
      ≡ on_current calls config (is_current w.file config && is_running w.caddy) w
unfolding apply_previews
accepted calls p ps config w a =
    ap (λ g. on_generated calls g w) a.generated
    ∙ ap (λ o. on_written calls config o w) a.written
    ∙ ap (λ o. on_validated calls config o w) a.validated

-- A Caddy runs, and the file has the configuration of some previews. If an Apply of others has Caddy
-- load their configuration and cannot write the file, it returns an error, and after it an Apply of
-- the first previews returns nil without a call of Caddy, which keeps running with the configuration
-- of the others.
pub stale_apply :
    (first second : Calls) (p q : Preview) (ps qs : List Preview) (old new running e : Text)
    (w : World)
    → w.caddy ≡ some running
    → is_current w.file old ≡ true
    → is_current w.file new ≡ false
    → Accepts first q qs new
    → Accepts second p ps old
    → first.load ≡ ok 200
    → first.replace ≡ some e
    → (apply_previews first (q ∷ qs) w ≡ (err (external e), record w { caddy = some new }))
      × (apply_previews second (p ∷ ps) (record w { caddy = some new })
          ≡ (ok tt, record w { caddy = some new }))
unfolding load
stale_apply first second p q ps qs old new running e w runs has lacks a b loads fails =
    let this : is_current w.file new && is_running w.caddy ≡ false = ground arith in
    let that : is_current w.file old && true ≡ true = ground arith in
    let now : is_running w.caddy ≡ true = ground arith in
    (
      accepted first q qs new w a
          ∙ ap (λ x. on_current first new x w) this
          ∙ ap (λ x. continue (run_with first new x w) (replaced (with_line_end new) first.replace))
              now
          ∙ ap (λ x. continue (posted (some new) x w) (replaced (with_line_end new) first.replace))
              loads
          ∙ ap
              (λ x.
                continue (ok tt, record w { caddy = some new }) (replaced (with_line_end new) x))
              fails,
      accepted second p ps old (record w { caddy = some new }) b
          ∙ ap (λ x. on_current second old x (record w { caddy = some new })) that,
    )

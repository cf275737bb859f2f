-- ===== src/Service/Command/Invariant.antt =====
-- The other commands keep the registry file valid too, and so does every sequence of commands.
use tailpreview.Base.{
  ℕ, ◌≡◌, refl, subst, Bool, true, false, Option, none, some, List, [], ◌∷◌, ◌++◌,
}
use tailpreview.Base.Lists.{All}
use tailpreview.Base.Strings.{Text}
use tailpreview.Model.{Preview, Registry}
use tailpreview.Host.{Service, World}
use tailpreview.Host.Monad.{M}
use tailpreview.Host.Keeps.{
  Silent-pure, Silent-bind, Silent-now, Silent-ask, Silent-check_once, Silent-tailscale_status,
  Silent-port_available, Silent-funnel, Silent-verify, Silent-apply, Silent-remove, Silent-attempt,
  Silent-remove_logs,
}
use tailpreview.Host.Invariant.{
  Keeps, Any, Keeps-Any, Keeps-pure, Keeps-fail, Keeps-bind, Keeps-step, Keeps-save,
  Keeps-with_registry,
}
use tailpreview.Service.Select.{Found, find_preview, is_selected, normalize_preview}
use tailpreview.Service.Undo.{Silent-or_undo, Keeps-or_undo}
use tailpreview.Service.Atomic.{require-Silent}
use tailpreview.Service.Check.{check_found, check, found_or_fail, put_back}
use tailpreview.Service.Down.{down_found, down, rest_of}
use tailpreview.Service.Listing.{list_previews, list, pin_found, set_pinned}
use tailpreview.Service.Usage.{reserve}
use tailpreview.Service.Gc.{gc}
use tailpreview.Service.Valid.{Unique, Placed, IsValid}
use tailpreview.Service.Valid.Lists.{
  SameKeys, Splits, find_by-Splits, Unique-map, All-map_keys, Unique-replace, Unique-drop, All-drop,
  All-swap, All-middle,
}
use tailpreview.Service.Valid.Updates.{refresh_usage-IsValid, reserve-Reserved, Placed-keys}
use tailpreview.Service.Command.{
  Command, up_command, down_command, check_command, pin_command, unpin_command, list_command,
  gc_command, run_command, run_commands, done,
}
use tailpreview.Service.Command.Atomic.{undo_down-Silent}
use tailpreview.Service.Command.Valid.{up-Keeps}
use tailpreview.Service.Command.Sweep.{collect-Keeps}

normalize-SameKeys : (p : Preview) → SameKeys p (normalize_preview p)
unfolding normalize_preview
normalize-SameKeys p = (refl, refl, refl)

module _ (s : Service) where
  abbrev Valid : Registry → Type 0
  Valid = IsValid s

  Keeps-done : {A : Type 0} (m : M A) → Keeps Valid Any m → Keeps Valid Any (done m)
  Keeps-done m h = Keeps-bind Valid Any Any m _ h (λ a _. Keeps-pure Valid Any tt tt)

  found_cases :
      {A : Type 0} (P : A → Type 0) (sel : Text) (ps : List Preview) (f : Option Found)
      (k : Found → M A)
      → Splits ps f
      → ((x : Found) → ps ≡ x.before ++ x.preview ∷ x.after → Keeps Valid P (k x))
      → Keeps Valid P (found_or_fail sel f k)
  found_cases P sel ps none k e h = Keeps-fail Valid P _
  found_cases P sel ps (some x) k e h = h x e

  Keeps-found :
      {A : Type 0} (P : A → Type 0) (sel : Text) (reg : Registry) (k : Found → M A)
      → ((x : Found) → reg.previews ≡ x.before ++ x.preview ∷ x.after → Keeps Valid P (k x))
      → Keeps Valid P (found_or_fail sel (find_preview reg.previews sel) k)
  unfolding find_preview
  Keeps-found P sel reg k =
      found_cases P sel reg.previews _ k (find_by-Splits (is_selected sel) reg.previews)

  module _ (reg : Registry) (v : Valid reg) (f : Found)
      (e : reg.previews ≡ f.before ++ f.preview ∷ f.after) where
    put_back-IsValid :
        (p : Preview) → SameKeys f.preview p → Valid (record reg { previews = put_back f p })
    put_back-IsValid p k = record {
      version_supported = v.version_supported;
      unique = Unique-replace f.preview p k f.after f.before (subst Unique e v.unique);
      placed =
          All-swap (Placed s) f.preview f.after p f.before
            (Placed-keys s f.preview p k (
              All-middle (Placed s) f.preview f.after f.before (subst (All (Placed s)) e v.placed)))
            (subst (All (Placed s)) e v.placed);
      reserved = v.reserved;
    }

    down_registry-IsValid :
        (time : ℕ)
        → Valid (record reg {
          previews = rest_of f;
          reservations =
              reserve f.preview.id
                (record { port = f.preview.external_port; last_seen = time })
                reg.reservations;
        })
    down_registry-IsValid time = record {
      version_supported = v.version_supported;
      unique = Unique-drop f.preview f.after f.before (subst Unique e v.unique);
      placed = All-drop (Placed s) f.preview f.after f.before (subst (All (Placed s)) e v.placed);
      reserved =
          reserve-Reserved s f.preview.id _ reg.reservations
            (All-middle (Placed s) f.preview f.after f.before (subst (All (Placed s)) e v.placed)).0
            v.reserved;
    }

    pin_found-Keeps : (b : Bool) → Keeps Valid Any (pin_found s b reg f)
    unfolding pin_found
    pin_found-Keeps b = Keeps-step Valid Any _ _ (Silent-now s) λ time.
        Keeps-bind Valid Any Any _ _ (Keeps-save s Valid _ (put_back-IsValid _ (refl, refl, refl)))
          λ _ _. Keeps-pure Valid Any _ tt

    check_found-Keeps : Keeps Valid Any (check_found s reg f)
    unfolding check_found
    check_found-Keeps = Keeps-step Valid Any _ _ (Silent-check_once s _) λ _.
        Keeps-step Valid Any _ _ (require-Silent s _ _) λ _.
          Keeps-step Valid Any _ _ (Silent-tailscale_status s) λ _.
            Keeps-step Valid Any _ _ (require-Silent s _ _) λ _.
              Keeps-step Valid Any _ _ (require-Silent s _ _) λ _.
                Keeps-step Valid Any _ _ (Silent-port_available s _) λ _.
                  Keeps-step Valid Any _ _ (require-Silent s _ _) λ _.
                    Keeps-step Valid Any _ _ (Silent-funnel s _) λ _.
                      Keeps-step Valid Any _ _ (require-Silent s _ _) λ _.
                        Keeps-step Valid Any _ _ (require-Silent s _ _) λ _.
                          Keeps-step Valid Any _ _ (Silent-verify s _ _) λ report.
                            Keeps-bind Valid Any Any _ _
                              (Keeps-save s Valid _
                                (put_back-IsValid _ (normalize-SameKeys f.preview)))
                              λ _ _. Keeps-pure Valid Any _ tt

    down_found-Keeps : Keeps Valid Any (down_found s reg f)
    unfolding down_found
    down_found-Keeps = Keeps-step Valid Any _ _ (Silent-apply s _) λ _.
        Keeps-step Valid Any _ _
          (Silent-or_undo _ _ _ (Silent-remove s _) (Silent-attempt _ (Silent-apply s _)))
          λ _. Keeps-step Valid Any _ _ (Silent-now s) λ time.
            Keeps-bind Valid Any Any _ _
              (Keeps-or_undo Valid Any _ _ _ (undo_down-Silent s f)
                (Keeps-save s Valid _ (down_registry-IsValid time)))
              λ _ _.
                Keeps-Any Valid _ (Silent-bind _ _ (Silent-remove_logs s _) (λ _. Silent-pure _))

  list_previews-Keeps : (reg : Registry) → Valid reg → Keeps Valid Any (list_previews s reg)
  unfolding list_previews
  list_previews-Keeps reg v = Keeps-step Valid Any _ _ (Silent-now s) λ time.
      Keeps-step Valid Any _ _ (Silent-ask _) λ log_time.
        let r = refresh_usage-IsValid s log_time time reg v in
        Keeps-bind Valid Any Any _ _
          (Keeps-save s Valid _ (record {
            version_supported = r.version_supported;
            unique = Unique-map normalize_preview normalize-SameKeys _ r.unique;
            placed =
                All-map_keys normalize_preview normalize-SameKeys (Placed s) (Placed-keys s) _
                  r.placed;
            reserved = r.reserved;
          }))
          λ _ _. Keeps-pure Valid Any _ tt

  pub run_command-Keeps : (c : Command) → Keeps Valid Any (run_command s c)
  unfolding run_command down check list set_pinned gc
  run_command-Keeps (up_command r) = Keeps-done _ (up-Keeps s r)
  run_command-Keeps (down_command sel) = Keeps-done _ (
      Keeps-with_registry s Valid Any _ λ reg v. Keeps-found Any sel reg _ (down_found-Keeps reg v))
  run_command-Keeps (check_command sel) = Keeps-done _ (
      Keeps-with_registry s Valid Any _
        λ reg v. Keeps-found Any sel reg _ (check_found-Keeps reg v))
  run_command-Keeps (pin_command sel) = Keeps-done _ (
      Keeps-with_registry s Valid Any _
        λ reg v. Keeps-found Any sel reg _ λ f e. pin_found-Keeps reg v f e true)
  run_command-Keeps (unpin_command sel) = Keeps-done _ (
      Keeps-with_registry s Valid Any _
        λ reg v. Keeps-found Any sel reg _ λ f e. pin_found-Keeps reg v f e false)
  run_command-Keeps list_command =
      Keeps-done _ (Keeps-with_registry s Valid Any _ list_previews-Keeps)
  run_command-Keeps gc_command = Keeps-done _ (Keeps-with_registry s Valid Any _ (collect-Keeps s))

-- Any sequence of commands, whether they fail or not, leaves a valid registry file valid: the version
-- is the supported one, no two previews share an identifier or an HTTPS port, every port is in the
-- pool and has its own gateway port, and every reserved port is in the pool.
pub run_commands-IsValid :
    (s : Service) (cs : List Command) (w : World)
    → IsValid s w.disk
    → IsValid s (run_commands s cs w).disk
unfolding run_commands
run_commands-IsValid s [] w v = v
run_commands-IsValid s (c ∷ cs) w v =
    run_commands-IsValid s cs (run_command s c w).1 ((run_command-Keeps s c).file w v)

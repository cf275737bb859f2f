-- ===== src/Service/Rollback.antt =====
-- What Service.Up does in order, and what it undoes when a step fails.
use tailpreview.Base.{
  ◌≡◌, refl, ◌∙◌, Bool, true, false, Option, none, some, ◌∷◌, arith, inl, inr, Option-cases,
}
use tailpreview.Base.Outcome.{ok, err, Outcome-cases}
use tailpreview.Model.{Preview, VerificationReport}
use tailpreview.Errors.{Error}
use tailpreview.Host.{
  Service, World, History, applied, exposed, verified, removed, saved, logs_removed,
}
use tailpreview.Host.Calls.{apply, expose, remove, verify, save, remove_logs, succeeded}
use tailpreview.Service.Up.{
  verified_preview, Plan, UpResult, execute_up, undo_expose, undo_all, moved_eviction, or_else,
  desired_previews, saved_registry,
}

module _ (s : Service) (plan : Plan) where
  open plan use {registry, existing, choice, preview}

  -- The preview whose listener is put back.
  abbrev pub owner : Option Preview
  owner = or_else existing choice.evicted

  -- The listener of the owner, if there is one, is exposed again.
  abbrev pub put_back : Option Preview → History → History
  put_back none h = h
  put_back (some v) h =
      exposed v.external_port v.gateway_port
        (succeeded (s.host.expose h v.external_port v.gateway_port))
      ∷ h

  abbrev pub after_apply : History → History
  after_apply h = applied (desired_previews plan) true ∷ h

  abbrev pub after_expose : History → History
  after_expose h = exposed choice.port choice.gateway true ∷ after_apply h

  -- The calls of a run that failed, newest first, after the history `h`.
  pub data IsUndone (h : History) (h' : History) : Type 0 where
    not_applied : h' ≡ applied (desired_previews plan) false ∷ h → IsUndone h h'
    not_exposed :
        (b : Bool)
        → h'
          ≡ applied registry.previews b ∷ exposed choice.port choice.gateway false ∷ after_apply h
        → IsUndone h h'
    not_verified :
        (b b' : Bool)
        → h'
          ≡ put_back owner (
              applied registry.previews b
              ∷ removed choice.port b'
              ∷ verified preview.url preview.verify false
              ∷ after_expose h)
        → IsUndone h h'
    not_saved :
        (report : VerificationReport) (b b' : Bool)
        → h'
          ≡ put_back owner (
              applied registry.previews b
              ∷ removed choice.port b'
              ∷ saved (saved_registry plan report) false
              ∷ verified preview.url preview.verify true
              ∷ after_expose h)
        → IsUndone h h'

  abbrev after_undo : Option Preview → World → History
  after_undo o w =
      let h1 = removed choice.port (succeeded (s.host.remove w.history choice.port)) ∷ w.history in
      put_back o (applied registry.previews (succeeded (s.host.apply h1 registry.previews)) ∷ h1)

  undo_all_history :
      (o : Option Preview) (w : World) → (undo_all s plan o w).1.history ≡ after_undo o w
  unfolding undo_all remove apply expose
  undo_all_history none w = refl
  undo_all_history (some v) w = refl

  undo_expose_history :
      (w : World)
      → moved_eviction choice ≡ none
      → (undo_expose s plan w).1.history
        ≡ applied registry.previews (succeeded (s.host.apply w.history registry.previews))
          ∷ w.history
  unfolding undo_expose apply
  undo_expose_history w same = rw same refl

  abbrev at_history : World → History → World
  at_history w h = record w { history = h }

  abbrev unexposed : History → History
  unexposed h = exposed choice.port choice.gateway false ∷ after_apply h

  abbrev unverified : History → History
  unverified h = verified preview.url preview.verify false ∷ after_expose h

  abbrev unsaved : VerificationReport → History → History
  unsaved report h =
      saved (saved_registry plan report) false
      ∷ verified preview.url preview.verify true
      ∷ after_expose h

  IsUndone-after_expose :
      (w : World) (h : History)
      → moved_eviction choice ≡ none
      → h ≡ (undo_expose s plan (at_history w (unexposed w.history))).1.history
      → IsUndone w.history h
  IsUndone-after_expose w h same u =
      not_exposed _ (u ∙ undo_expose_history (at_history w (unexposed w.history)) same)

  IsUndone-after_verify :
      (w : World) (h : History)
      → h ≡ (undo_all s plan owner (at_history w (unverified w.history))).1.history
      → IsUndone w.history h
  IsUndone-after_verify w h u =
      not_verified _ _ (u ∙ undo_all_history owner (at_history w (unverified w.history)))

  IsUndone-after_save :
      (report : VerificationReport) (w : World) (h : History)
      → h ≡ (undo_all s plan owner (at_history w (unsaved report w.history))).1.history
      → IsUndone w.history h
  IsUndone-after_save report w h u =
      not_saved report _ _ (u ∙ undo_all_history owner (at_history w (unsaved report w.history)))

  -- If no eviction moves to another port, a run that fails after the plan has made one of four lists of
  -- calls: Caddy refused the new list, and nothing else was done; the listener could not be exposed, and
  -- Caddy got the old list back; the final URL failed its verification, or the registry could not be
  -- saved, and then the listener was removed, Caddy got the old list back, and the listener of the
  -- preview that had the port before was exposed again.
  pub execute_up-IsUndone :
      (w w' : World) (e : Error)
      → moved_eviction choice ≡ none
      → execute_up s plan w ≡ (err e, w')
      → IsUndone w.history w'.history
  unfolding execute_up apply expose verify save remove_logs
  execute_up-IsUndone w w' e same h =
      elim (Option-cases (s.host.apply w.history (desired_previews plan))) [
        | inr (x, eq) ↦ not_applied (ground arith)
        | inl eq ↦
            elim (Option-cases (s.host.expose (after_apply w.history) choice.port choice.gateway)) [
              | inr (x, eq2) ↦ IsUndone-after_expose w _ same (ground arith)
              | inl eq2 ↦
                  elim (Outcome-cases
                    (s.host.verify (after_expose w.history) preview.url preview.verify)) [
                      | inr (x, eq3) ↦ IsUndone-after_verify w _ (ground arith)
                      | inl (report, eq3) ↦
                          elim (Option-cases (
                            s.host.save
                              (verified preview.url preview.verify true ∷ after_expose w.history)
                              (saved_registry plan report))) [
                                | inr (x, eq4) ↦
                                    IsUndone-after_save report w _ (ground (arith, same))
                                | inl eq4 ↦ elim (Option-cases choice.evicted) [
                                  | inl eq5 ↦ absurd (ground (arith, same))
                                  | inr (v, eq5) ↦ absurd (ground (arith, same))
                                ]
                              ]
                    ]
            ]
      ]

  abbrev forgotten : Option Preview → History → History
  forgotten none h = h
  forgotten (some v) h = logs_removed v.id ∷ h

  -- The new list reached Caddy, the port was exposed, the final URL passed its verification, and then
  -- the registry was saved; the logs of an evicted preview were removed last.
  pub record IsPublished (w w' : World) (r : UpResult) : Type 0 where
    pub report : VerificationReport
    pub passed : s.host.verify (after_expose w.history) preview.url preview.verify ≡ ok report
    pub written : w'.disk ≡ saved_registry plan report
    pub calls :
        w'.history
        ≡ forgotten choice.evicted (
            saved (saved_registry plan report) true
            ∷ verified preview.url preview.verify true
            ∷ after_expose w.history)
    pub returned : r.preview ≡ verified_preview plan report
    pub gave_way : r.evicted ≡ choice.evicted

  -- If no eviction moves to another port, a run that succeeds has made these calls in this order: the
  -- new list applied, the port exposed, the final URL verified, and the registry saved; and it returns
  -- the saved preview with the time of the verification, and the evicted one.
  pub execute_up-IsPublished :
      (w w' : World) (r : UpResult)
      → moved_eviction choice ≡ none
      → execute_up s plan w ≡ (ok r, w')
      → IsPublished w w' r
  unfolding execute_up apply expose verify save remove_logs
  execute_up-IsPublished w w' r same h =
      elim (Outcome-cases (s.host.verify (after_expose w.history) preview.url preview.verify)) [
        | inr (x, eq) ↦ absurd (ground (arith, same))
        | inl (report, eq) ↦ record {
          report = report;
          passed = eq;
          written = elim (Option-cases choice.evicted) [
            | inl e ↦ ground (arith, same)
            | inr (v, e) ↦ ground (arith, same)
          ];
          calls = elim (Option-cases choice.evicted) [
            | inl e ↦ ground (arith, same)
            | inr (v, e) ↦ ground (arith, same)
          ];
          returned = elim (Option-cases choice.evicted) [
            | inl e ↦ ground (arith, same)
            | inr (v, e) ↦ ground (arith, same)
          ];
          gave_way = elim (Option-cases choice.evicted) [
            | inl e ↦ ground (arith, same)
            | inr (v, e) ↦ ground (arith, same)
          ];
        }
      ]

-- ===== src/Service/Handoff.antt =====
-- Service.Check succeeds exactly when every condition of a safe handoff holds, in order.
use tailpreview.Base.{◌≡◌, ◌↔◌, true, false, none, ◌∷◌, arith, inl, inr, sym, ◌∙◌}
use tailpreview.Base.Outcome.{Outcome, ok, Outcome-cases}
use tailpreview.Model.{Preview, Registry, VerificationReport}
use tailpreview.Errors.{Error, hostname_only}
use tailpreview.Host.{
  History, Service, Status, World, checked, status_read, probed, funnel_read, verified, saved,
}
use tailpreview.Host.Calls.{
  check_once, tailscale_status, port_available, funnel_enabled_on_port, verify, save,
}
use tailpreview.Service.Select.{Found, normalize_preview}
use tailpreview.Service.Up.{is_ready, require}
use tailpreview.Service.Check.{CheckResult, check_found, same_device, checked_preview, put_back}

module _ (s : Service) (reg : Registry) (f : Found) (w : World) (st : Status)
    (report : VerificationReport) where
  abbrev pub target : Preview
  target = normalize_preview f.preview

  abbrev pub checked_registry : Registry
  checked_registry = record reg { previews = put_back f (checked_preview target report) }

  -- The calls, newest first.
  abbrev after_health : History
  after_health = checked target.health true ∷ w.history

  abbrev after_status : History
  after_status = status_read (ok st) ∷ after_health

  abbrev after_listener : History
  after_listener = probed target.external_port (ok false) ∷ after_status

  abbrev after_funnel : History
  after_funnel = funnel_read target.external_port (ok false) ∷ after_listener

  abbrev after_verify : History
  after_verify = verified target.handoff_url target.verify true ∷ after_funnel

  -- The local services are healthy, the device still has the registered name, the listener is there and
  -- not public, the final URL passed its checks, and the result is saved.
  pub record IsHandedOff : Type 0 where
    pub healthy : s.host.check_once w.history target.health ≡ none
    pub status_known : s.host.status after_health ≡ ok st
    pub ready : is_ready st ≡ true
    pub same_name : same_device st (hostname_only s.net target.handoff_url) ≡ true
    pub listening : s.host.port_available after_status target.external_port ≡ ok false
    pub private : s.host.funnel_on_port after_listener target.external_port ≡ ok false
    pub has_verifier : s.has_verifier ≡ true
    pub passed : s.host.verify after_funnel target.handoff_url target.verify ≡ ok report
    pub written : s.host.save after_verify checked_registry ≡ none

  abbrev pub handed_off : Outcome Error CheckResult × World
  handed_off = (
    ok (record { preview = checked_preview target report; verification = report }),
    record { disk = checked_registry; history = saved checked_registry true ∷ after_verify },
  )

  pub IsHandedOff-check : IsHandedOff → check_found s reg f w ≡ handed_off
  unfolding check_found check_once tailscale_status port_available funnel_enabled_on_port verify
      save require
  IsHandedOff-check h = ground arith

module _ (s : Service) (reg : Registry) (f : Found) (w : World) where
  abbrev history_1 : History
  history_1 = checked (normalize_preview f.preview).health true ∷ w.history

  abbrev history_2 : Status → History
  history_2 st = status_read (ok st) ∷ history_1

  abbrev history_3 : Status → History
  history_3 st =
      let port = (normalize_preview f.preview).external_port in
      funnel_read port (ok false) ∷ probed port (ok false) ∷ history_2 st

  check_found-IsHandedOff :
      (r : CheckResult) (w' : World)
      → check_found s reg f w ≡ (ok r, w')
      → (st : Status) × (report : VerificationReport) × IsHandedOff s reg f w st report
  unfolding check_found check_once tailscale_status port_available funnel_enabled_on_port verify
      save require
  check_found-IsHandedOff r w' h = elim (Outcome-cases (s.host.status history_1)) [
    | inr (e, eq) ↦ ground arith
    | inl (st, eq) ↦
        elim (Outcome-cases (
          s.host.verify (history_3 st) (normalize_preview f.preview).handoff_url
            (normalize_preview f.preview).verify)) [
              | inr (e, eq2) ↦ ground arith
              | inl (report, eq2) ↦ (
                st,
                report,
                record {
                  healthy = ground arith;
                  status_known = ground arith;
                  ready = ground arith;
                  same_name = ground arith;
                  listening = ground arith;
                  private = ground arith;
                  has_verifier = ground arith;
                  passed = ground arith;
                  written = ground arith;
                },
              )
            ]
  ]

  abbrev pub Succeeds : CheckResult → World → Type 0
  Succeeds r w' =
      (st : Status) × (report : VerificationReport) × IsHandedOff s reg f w st report
      × (handed_off s reg f w st report ≡ (ok r, w'))

  -- Checking a preview that was found succeeds, with a given result and world, exactly when some status
  -- and some verification report meet every condition of a safe handoff, asked in this order, and the
  -- result and the world are those that they determine: the report, the preview marked active and
  -- verified, and the registry with that preview saved.
  pub check_found_iff-IsHandedOff :
      (r : CheckResult) (w' : World) → (check_found s reg f w ≡ (ok r, w')) ↔ Succeeds r w'
  check_found_iff-IsHandedOff r w' = (
    λ h.
        let (st, report, c) = check_found-IsHandedOff r w' h in
        (st, report, c, sym (IsHandedOff-check s reg f w st report c) ∙ h),
    λ (st, report, c, eq). IsHandedOff-check s reg f w st report c ∙ eq,
  )

-- ===== src/Doctor/Healthy.antt =====
-- When the report of Run in internal/doctor/doctor.go is healthy.
use tailpreview.Base.{
  ℕ, ◌≤◌, ◌≡◌, ◌≢◌, ◌↔◌, refl, sym, subst, ◌⊎◌, inl, inr, String, Bool, true, false, not, ◌||◌,
  Option, none, some, [], ◌∷◌, arith, ltb, Bool-cases,
}
use tailpreview.Base.Strings.{Text, codes, text_eq, text_eq_iff, is_empty}
use tailpreview.Base.Outcome.{Outcome, ok, err, ok_injective}
use tailpreview.Host.{Status}
use tailpreview.Doctor.{
  good, warning, bad, Report, Calls, add, add_version, add_caddy, add_cli, add_backend, add_dns,
  add_expiry, expiry_of, add_status, add_funnel, consent_message, add_consent, add_paths, run,
}

abbrev IsHealthy : Report → Type 0
IsHealthy r = r.healthy ≡ true

abbrev pub Answered : {A : Type 0} → Outcome Text A → Type 0
Answered {A = A} o = (a : A) × (o ≡ ok a)

abbrev pub HasCaddy : Calls → Type 0
HasCaddy calls = (path : Text) × (calls.look_caddy ≡ ok path) × Answered (calls.caddy_version path)

abbrev pub IsUnexpired : Calls → Option ℕ → Type 0
IsUnexpired calls none = Unit
IsUnexpired calls (some expiry) = calls.now ≤ expiry

-- The device runs, has a name, and its key, if it expires, has not expired.
pub record IsConnected (calls : Calls) (st : Status) : Type 0 where
  pub running : st.backend_state ≡ codes "Running"
  pub named : (st.magic_dns_enabled ≡ true) ⊎ (st.dns_name ≢ [])
  pub unexpired : IsUnexpired calls (expiry_of calls st.key_expiry)

good_iff : (name : String) (m : Text) (r : Report) → IsHealthy (add name good m r) ↔ IsHealthy r
unfolding add
good_iff name m r = (λ h. h, λ h. h)

warning_iff :
    (name : String) (m : Text) (r : Report) → IsHealthy (add name warning m r) ↔ IsHealthy r
unfolding add
warning_iff name m r = (λ h. h, λ h. h)

bad_never : (name : String) (m : Text) (r : Report) → IsHealthy (add name bad m r) → ⊥
unfolding add
bad_never name m r h = cc h

version_iff :
    (o : Outcome Text Text) (r : Report) → IsHealthy (add_version o r) ↔ (IsHealthy r × Answered o)
version_iff (err e) r = (λ h. absurd (bad_never _ _ r h), λ h. absurd (ground arith))
version_iff (ok s) r = (λ h. ((good_iff _ _ r).0 h, (s, refl)), λ h. (good_iff _ _ r).1 h.0)

caddy_iff :
    (calls : Calls) (o : Outcome Text Text) (r : Report)
    → IsHealthy (add_caddy calls o r)
      ↔ (IsHealthy r × ((path : Text) × (o ≡ ok path) × Answered (calls.caddy_version path)))
caddy_iff calls (err e) r = (λ h. absurd (bad_never _ _ r h), λ (h, (p, e', q)). absurd (cc e'))
caddy_iff calls (ok path) r =
    let v = version_iff (calls.caddy_version path) r in
    (
      λ h. ((v.0 h).0, (path, refl, (v.0 h).1)),
      λ (h, (p, e, q)).
          v.1 (h, subst (λ x. Answered (calls.caddy_version x)) (sym (ok_injective e)) q),
    )

cli_iff :
    (o : Outcome Text Text) (r : Report) → IsHealthy (add_cli o r) ↔ (IsHealthy r × Answered o)
cli_iff (err e) r = (λ h. absurd (bad_never _ _ r h), λ (h, (a, e')). absurd (cc e'))
cli_iff (ok s) r = (λ h. ((good_iff _ _ r).0 h, (s, refl)), λ h. (good_iff _ _ r).1 h.0)

backend_iff :
    (st : Status) (r : Report)
    → IsHealthy (add_backend st r) ↔ (IsHealthy r × (st.backend_state ≡ codes "Running"))
backend_iff st r = elim (Bool-cases (text_eq st.backend_state (codes "Running"))) [
  | inl e ↦ rw e (
    λ h. ((good_iff "tailscale-status" st.dns_name r).0 h, (text_eq_iff _ _).0 e),
    λ h. (good_iff "tailscale-status" st.dns_name r).1 h.0,
  )
  | inr e ↦ rw e (λ h. absurd (bad_never _ _ r h), λ h. absurd (cc (e, (text_eq_iff _ _).1 h.1)))
]

dns_given : (b : Bool) (s : Text) → (b || not (is_empty s) ≡ true) ↔ ((b ≡ true) ⊎ (s ≢ []))
dns_given true s = (λ h. inl refl, λ h. refl)
dns_given false [] = (λ h. absurd (cc h), λ h. absurd (ground arith))
dns_given false (c ∷ s) = (λ h. inr (λ e. cc), λ h. refl)

dns_iff :
    (st : Status) (r : Report)
    → IsHealthy (add_dns st r)
      ↔ (IsHealthy r × ((st.magic_dns_enabled ≡ true) ⊎ (st.dns_name ≢ [])))
dns_iff st r = elim (Bool-cases (st.magic_dns_enabled || not (is_empty st.dns_name))) [
  | inl e ↦ rw e (
    λ h. ((good_iff "magicdns" st.magic_dns_suffix r).0 h, (dns_given _ _).0 e),
    λ h. (good_iff "magicdns" st.magic_dns_suffix r).1 h.0,
  )
  | inr e ↦ rw e (λ h. absurd (bad_never _ _ r h), λ h. absurd (cc (e, (dns_given _ _).1 h.1)))
]

expiry_iff :
    (calls : Calls) (o : Option ℕ) (r : Report)
    → IsHealthy (add_expiry calls o r) ↔ (IsHealthy r × IsUnexpired calls o)
unfolding add
expiry_iff calls none r = (λ h. (h, tt), λ h. h.0)
expiry_iff calls (some t) r = ground (arith, Bool-cases (ltb t calls.now))

status_iff :
    (calls : Calls) (o : Outcome Text Status) (r : Report)
    → IsHealthy (add_status calls o r)
      ↔ (IsHealthy r × ((st : Status) × (o ≡ ok st) × IsConnected calls st))
status_iff calls (err e) r = (λ h. absurd (bad_never _ _ r h), λ (h, (st, e', q)). absurd (cc e'))
status_iff calls (ok st) r =
    let x = expiry_iff calls (expiry_of calls st.key_expiry) (add_dns st (add_backend st r)) in
    let d = dns_iff st (add_backend st r) in
    let b = backend_iff st r in
    (
      λ h.
          let (k, u) = x.0 h in
          let (l, n) = d.0 k in
          let (m, w) = b.0 l in (m, (st, refl, record { running = w; named = n; unexpired = u })),
      λ (h, (st', e, c)).
          let c' : IsConnected calls st = subst (IsConnected calls) (sym (ok_injective e)) c in
          x.1 (d.1 (b.1 (h, c'.running), c'.named), c'.unexpired),
    )

funnel_iff :
    (o : Outcome Text Bool) (r : Report) → IsHealthy (add_funnel o r) ↔ (IsHealthy r × Answered o)
funnel_iff (err e) r = (λ h. absurd (bad_never _ _ r h), λ (h, (a, e')). absurd (cc e'))
funnel_iff (ok true) r =
    (λ h. ((warning_iff _ _ r).0 h, (true, refl)), λ h. (warning_iff _ _ r).1 h.0)
funnel_iff (ok false) r = (λ h. ((good_iff _ _ r).0 h, (false, refl)), λ h. (good_iff _ _ r).1 h.0)

paths_iff :
    (calls : Calls) (o : Option Text) (r : Report)
    → IsHealthy (add_paths calls o r) ↔ (IsHealthy r × (o ≡ none))
paths_iff calls (some e) r = (λ h. absurd (bad_never _ _ r h), λ h. absurd (cc h.1))
paths_iff calls none r = (λ h. ((good_iff _ _ r).0 h, refl), λ h. (good_iff _ _ r).1 h.0)

-- Everything that the program needs.
pub record IsReady (calls : Calls) : Type 0 where
  pub caddy : HasCaddy calls
  pub cli : Answered calls.look_tailscale
  pub status : (st : Status) × (calls.status ≡ ok st) × IsConnected calls st
  pub funnel : Answered calls.funnel
  pub paths : calls.ensure ≡ none

-- The report is healthy exactly when Caddy is found and tells its version, Tailscale is found, its
-- status is read and says that the device runs, has a name, and has no expired key, the Funnel setting
-- can be read, and the directories are there.
pub run_iff-IsReady : (calls : Calls) → ((run calls).healthy ≡ true) ↔ IsReady calls
unfolding run
run_iff-IsReady calls =
    let start : Report = record { healthy = true; checks = [] } in
    let r1 : Report = add_caddy calls calls.look_caddy start in
    let r2 : Report = add_cli calls.look_tailscale r1 in
    let r3 : Report = add_status calls calls.status r2 in
    let r4 : Report = add_funnel calls.funnel r3 in
    let caddy = caddy_iff calls calls.look_caddy start in
    let cli = cli_iff calls.look_tailscale r1 in
    let status = status_iff calls calls.status r2 in
    let funnel = funnel_iff calls.funnel r3 in
    let paths = paths_iff calls calls.ensure (add_consent r4) in
    let consent = warning_iff "serve-consent" consent_message r4 in
    (
      λ h.
          let (h5, p) = paths.0 h in
          let (h3, f) = funnel.0 (consent.0 h5) in
          let (h2, st) = status.0 h3 in
          let (h1, c) = cli.0 h2 in
          record { caddy = (caddy.0 h1).1; cli = c; status = st; funnel = f; paths = p },
      λ w. paths.1 (
        consent.1
            (funnel.1 (status.1 (cli.1 (caddy.1 (refl, w.caddy), w.cli), w.status), w.funnel)),
        w.paths,
      ),
    )

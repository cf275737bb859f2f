-- ===== src/Doctor.antt =====
-- Run of internal/doctor/doctor.go. What the runner, Tailscale, time.Parse, the clock and
-- Paths.Ensure answer is a parameter.
pub mod Healthy
use tailpreview.Base.{
  ℕ, ◌+◌, ◌-◌, ◌*◌, String, Bool, true, false, not, ◌||◌, Option, none, some, List, [], ◌∷◌, ◌++◌,
  ltb, if◌then◌else◌,
}
use tailpreview.Base.Strings.{Text, codes, text_eq, is_empty}
use tailpreview.Base.Outcome.{Outcome, ok, err}
use tailpreview.Config.{hour}
use tailpreview.Host.{Status}

-- The texts "ok", "warning" and "error".
pub data Level : Type 0 where
  good warning bad : Level

pub record Check : Type 0 where
  pub name : String
  pub status : Level
  pub message : Text

pub record Report : Type 0 where
  pub healthy : Bool
  pub checks : List Check

pub record Calls : Type 0 where
  pub look_caddy : Outcome Text Text
  pub caddy_version : Text → Outcome Text Text
  pub look_tailscale : Outcome Text Text
  pub status : Outcome Text Status
  pub parse_time : Text → Option ℕ
  pub now : ℕ
  pub show_duration : ℕ → Text
  pub show_time : ℕ → Text
  pub funnel : Outcome Text Bool
  pub ensure : Option Text
  pub state_dir : Text

abbrev pub is_bad : Level → Bool
is_bad good = false
is_bad warning = false
is_bad bad = true

-- `add`
unfoldable pub add : String → Level → Text → Report → Report
add name status message r = record {
  healthy = if is_bad status then false else r.healthy;
  checks = r.checks ++ record { name = name; status = status; message = message } ∷ [];
}

abbrev pub add_version : Outcome Text Text → Report → Report
add_version (err e) r = add "caddy" bad e r
add_version (ok stdout) r = add "caddy" good stdout r

abbrev pub add_caddy : Calls → Outcome Text Text → Report → Report
add_caddy calls (err e) r = add "caddy" bad (codes "Caddy is not installed or not on PATH") r
add_caddy calls (ok path) r = add_version (calls.caddy_version path) r

abbrev pub add_cli : Outcome Text Text → Report → Report
add_cli (err e) r = add "tailscale-cli" bad (codes "Tailscale is not installed or not on PATH") r
add_cli (ok path) r = add "tailscale-cli" good path r

abbrev pub add_backend : Status → Report → Report
add_backend st r =
    if text_eq st.backend_state (codes "Running")
    then add "tailscale-status" good st.dns_name r
    else add "tailscale-status" bad (codes "backend state is " ++ st.backend_state) r

abbrev pub add_dns : Status → Report → Report
add_dns st r =
    if st.magic_dns_enabled || not (is_empty st.dns_name)
    then add "magicdns" good st.magic_dns_suffix r
    else add "magicdns" bad (codes "MagicDNS or a tailnet DNS name is required") r

abbrev pub add_expiry : Calls → Option ℕ → Report → Report
add_expiry calls none r = r
add_expiry calls (some expiry) r =
    if ltb expiry calls.now
    then add "key-expiry" bad (codes "Tailscale node key is expired") r
    else if ltb (expiry - calls.now) (30 * 24 * hour)
    then add "key-expiry" warning
        (codes "node key expires in " ++ calls.show_duration (expiry - calls.now)) r
    else add "key-expiry" good (calls.show_time expiry) r

abbrev pub expiry_of : Calls → Text → Option ℕ
expiry_of calls [] = none
expiry_of calls (c ∷ s) = calls.parse_time (c ∷ s)

abbrev pub add_status : Calls → Outcome Text Status → Report → Report
add_status calls (err e) r = add "tailscale-status" bad e r
add_status calls (ok st) r =
    add_expiry calls (expiry_of calls st.key_expiry) (add_dns st (add_backend st r))

abbrev pub add_funnel : Outcome Text Bool → Report → Report
add_funnel (err e) r = add "funnel" bad e r
add_funnel (ok true) r =
    add "funnel" warning
      (codes "Funnel is configured on this device; Tailpreview will never use it") r
add_funnel (ok false) r = add "funnel" good (codes "no public Funnel endpoint detected") r

abbrev pub consent_message : Text
consent_message =
    codes
      "one-time Tailscale Serve consent cannot be verified read-only; the first up command will report it safely if required"

abbrev pub add_consent : Report → Report
add_consent r = add "serve-consent" warning consent_message r

abbrev pub add_paths : Calls → Option Text → Report → Report
add_paths calls (some e) r = add "state-paths" bad e r
add_paths calls none r = add "state-paths" good calls.state_dir r

-- Run
unfoldable pub run : Calls → Report
unfolding add text_eq
run calls = add_paths calls calls.ensure (
    add_consent (
      add_funnel calls.funnel (
        add_status calls calls.status (
          add_cli calls.look_tailscale
            (add_caddy calls calls.look_caddy (record { healthy = true; checks = [] }))))))

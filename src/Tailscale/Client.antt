-- ===== src/Tailscale/Client.antt =====
-- The methods of CLI. A command returns its output and, if it failed, an error; commands that have run
-- are kept, newest first, so that the answer to each may depend on those before.
use tailpreview.Base.{ℕ, Bool, false, not, Option, none, some, List, ◌∷◌, ◌++◌, if◌then◌else◌}
use tailpreview.Base.Strings.{Text, codes, contains, to_lower, trim_space, trim_suffix, is_empty}
use tailpreview.Base.Outcome.{Outcome, ok, err}
use tailpreview.Url.{Net}
use tailpreview.Host.{Status}
use tailpreview.Json.{Json, object, empty}
use tailpreview.Tailscale.Search.{
  contains_port, contains_enabled_funnel, contains_enabled_funnel_port,
}

pub data Command : Type 0 where
  status_json serve_status_json : Command
  serve_https : ℕ → ℕ → Command
  serve_off : ℕ → Command

pub data CliError : Type 0 where
  failed : Text → CliError
  bad_status bad_serve_status : CliError
  needs_consent public_endpoint : ℕ → CliError
  not_finished : CliError

-- `error` is what the runner returned; `expired` says whether the fifteen seconds were over.
pub record Result : Type 0 where
  pub stdout : Text
  pub stderr : Text
  pub error : Option Text
  pub expired : Bool

abbrev pub Commands : Type 0
Commands = List Command

-- process.Runner, and json.Unmarshal into Status and into an empty interface.
pub record Cli : Type 0 where
  pub run : Commands → Command → Result
  pub decode_status : Text → Option Status
  pub decode : Text → Option Json

module _ (net : Net) (cli : Cli) where
  abbrev pub Run : Type 0 → Type 0
  Run A = Commands → Outcome CliError A × Commands

  abbrev pub status_of : Option Status → Outcome CliError Status
  status_of none = err bad_status
  status_of (some st) = ok (record st { dns_name = trim_suffix st.dns_name (codes ".") })

  abbrev pub or_failed : {A : Type 0} → Option Text → Outcome CliError A → Outcome CliError A
  or_failed none r = r
  or_failed (some e) r = err (failed e)

  unfoldable pub read_status : Run Status
  unfolding trim_suffix
  read_status h =
      let r = cli.run h status_json in
      (or_failed r.error (status_of (cli.decode_status r.stdout)), status_json ∷ h)

  abbrev pub payload_of : Option Json → Outcome CliError Json
  payload_of none = err bad_serve_status
  payload_of (some j) = ok j

  unfoldable pub serve_status : Run Json
  serve_status h =
      let r = cli.run h serve_status_json in
      (
        or_failed r.error (
            if is_empty (trim_space r.stdout)
            then ok (object empty)
            else payload_of (cli.decode r.stdout)),
        serve_status_json ∷ h,
      )

  abbrev pub with_payload : (Json → Bool) → Outcome CliError Json → Outcome CliError Bool
  with_payload f (ok j) = ok (f j)
  with_payload f (err e) = err e

  unfoldable pub is_port_available : ℕ → Run Bool
  is_port_available p h =
      let (r, h1) = serve_status h in (with_payload (λ j. not (contains_port net p j)) r, h1)

  unfoldable pub is_funnel_enabled : Run Bool
  is_funnel_enabled h = let (r, h1) = serve_status h in (with_payload contains_enabled_funnel r, h1)

  unfoldable pub is_funnel_enabled_on_port : ℕ → Run Bool
  is_funnel_enabled_on_port p h =
      let (r, h1) = serve_status h in
      (with_payload (contains_enabled_funnel_port net p false) r, h1)

  unfoldable pub remove_port : ℕ → Run (Unit {0})
  remove_port p h = (or_failed (cli.run h (serve_off p)).error (ok tt), serve_off p ∷ h)

  -- The output in lower case, in which Expose looks for two messages.
  abbrev pub said : Result → Text
  said r = to_lower (r.stdout ++ (codes "\n" ++ r.stderr))

  abbrev pub expose_error : Result → Outcome CliError (Unit {0})
  expose_error r = elim r.error [
    | none ↦ ok tt
    | some e ↦ err (if r.expired then not_finished else failed e)
  ]

  unfoldable pub expose_port : ℕ → ℕ → Run (Unit {0})
  expose_port p gateway h =
      let r = cli.run h (serve_https p gateway) in
      let h1 = serve_https p gateway ∷ h in
      if contains (said r) (codes "serve is not enabled")
      then (err (needs_consent p), h1)
      else if contains (said r) (codes "available on the internet")
      then (err (public_endpoint p), (remove_port p h1).1)
      else (expose_error r, h1)

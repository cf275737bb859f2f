-- ===== src/Caddy/Manager.antt =====
-- Apply, Stop, ActiveRequests, load and atomicWrite of internal/caddy/manager.go. The world is the
-- configuration file and the Caddy that runs with the configuration it last took; a connection to the
-- socket succeeds while it runs. What the calls answer is a parameter.
use tailpreview.Base.{
  ℕ, ◌+◌, Bool, true, false, ◌&&◌, Option, none, some, List, [], ◌∷◌, ◌++◌, ltb, leb, ◌==◌,
  if◌then◌else◌,
}
use tailpreview.Base.Strings.{Text, text_eq, trim_space}
use tailpreview.Base.Outcome.{Outcome, ok, err, ◌>>=◌}
use tailpreview.Errors.{Error, external, wrapped, status_error}
use tailpreview.Model.{Preview}
use tailpreview.Url.{Net}
use tailpreview.Json.{Json}
use tailpreview.Config.Decode.{decoded}
use tailpreview.Caddy.{Paths}
use tailpreview.Caddy.Config.{generate}

pub record World : Type 0 where
  pub file : Option Text
  pub caddy : Option Text

abbrev pub Action : Type 0
Action = World → Outcome Error (Unit {0}) × World

-- running
abbrev pub is_running : Option Text → Bool
is_running none = false
is_running (some c) = true

-- The calls of one Apply: json.MarshalIndent; os.WriteFile of the candidate; `caddy validate`; the
-- status of POST /load and POST /stop, which Caddy followed if it is a success, and may have followed
-- if there was no answer; start, which may leave a Caddy behind if it fails; and the calls of
-- atomicWrite up to the rename.
pub record Calls : Type 0 where
  pub net : Net
  pub paths : Paths
  pub marshal : Json → Outcome Text Text
  pub write_candidate : Option Text
  pub validate : Option Text
  pub load : Outcome (Text × Bool) ℕ
  pub start : Option (Error × Bool)
  pub replace : Option Text
  pub stop : Outcome (Text × Bool) ℕ

abbrev pub is_success : ℕ → Bool
is_success code = leb 200 code && ltb code 300

abbrev pub taken_if : Bool → Option Text → Option Text → Option Text
taken_if true new old = new
taken_if false new old = old

-- The answer to a POST after which Caddy is `next`.
abbrev pub posted : Option Text → Outcome (Text × Bool) ℕ → Action
posted next (err (e, taken)) w =
    (err (external e), record w { caddy = taken_if taken next w.caddy })
posted next (ok code) w =
    if is_success code then (ok tt, record w { caddy = next }) else (err (status_error code), w)

-- load
unfoldable pub load : Calls → Text → Action
load calls config = posted (some config) calls.load

-- Stop
abbrev pub stop_running : Calls → Bool → Action
stop_running calls false w = (ok tt, w)
stop_running calls true w = posted none calls.stop w

unfoldable pub stop : Calls → Action
stop calls w = stop_running calls (is_running w.caddy) w

abbrev pub started : Text → Option (Error × Bool) → Action
started config (some (e, taken)) w =
    (err e, record w { caddy = taken_if taken (some config) w.caddy })
started config none w = (ok tt, record w { caddy = some config })

-- `if m.running() { load } else { start }`
abbrev pub run_with : Calls → Text → Bool → Action
run_with calls config true w = load calls config w
run_with calls config false w = started config calls.start w

-- atomicWrite
abbrev pub replaced : Text → Option Text → Action
replaced content (some e) w = (err (external e), w)
replaced content none w = (ok tt, record w { file = some content })

abbrev pub continue : Outcome Error (Unit {0}) × World → Action → Outcome Error (Unit {0}) × World
continue (ok _, w) next = next w
continue (err e, w) next = (err e, w)

-- The file is the candidate up to blanks around it.
abbrev pub is_current : Option Text → Text → Bool
is_current none config = false
is_current (some current) config = text_eq (trim_space current) (trim_space config)

abbrev pub with_line_end : Text → Text
with_line_end t = t ++ b'\n' ∷ []

abbrev pub change_config : Calls → Text → Action
change_config calls config w =
    continue (run_with calls config (is_running w.caddy) w)
      (replaced (with_line_end config) calls.replace)

abbrev pub on_current : Calls → Text → Bool → Action
on_current calls config true w = (ok tt, w)
on_current calls config false w = change_config calls config w

abbrev pub on_validated : Calls → Text → Option Text → Action
on_validated calls config (some e) w =
    (err (wrapped "validate generated Caddy config" (external e)), w)
on_validated calls config none w =
    on_current calls config (is_current w.file config && is_running w.caddy) w

abbrev pub on_written : Calls → Text → Option Text → Action
on_written calls config (some e) w = (err (external e), w)
on_written calls config none w = on_validated calls config calls.validate w

abbrev pub on_generated : Calls → Outcome Error Text → Action
on_generated calls (err e) w = (err e, w)
on_generated calls (ok config) w = on_written calls config calls.write_candidate w

-- Generate
unfoldable pub candidate : Calls → List Preview → Outcome Error Text
unfolding generate
candidate calls previews =
    generate calls.paths calls.net previews >>= λ json. decoded (calls.marshal json)

-- Apply
unfoldable pub apply_previews : Calls → List Preview → Action
unfolding stop load trim_space candidate
apply_previews calls [] w = stop calls w
apply_previews calls (p ∷ ps) w = on_generated calls (candidate calls (p ∷ ps)) w

-- `result[upstream.Address] += upstream.NumRequests`
unfoldable pub add_requests : Text → ℕ → List (Text × ℕ) → List (Text × ℕ)
unfolding text_eq
add_requests address n [] = (address, n) ∷ []
add_requests address n ((a, m) ∷ rest) =
    let more : List (Text × ℕ) = (a, m) ∷ add_requests address n rest in
    if text_eq a address then (a, m + n) ∷ rest else more

unfoldable pub sum_requests : List (Text × ℕ) → List (Text × ℕ) → List (Text × ℕ)
unfolding add_requests
sum_requests [] result = result
sum_requests ((address, n) ∷ payload) result = sum_requests payload (add_requests address n result)

-- The answer to GET /reverse_proxy/upstreams: its status, and its payload if it can be decoded.
abbrev pub of_payload : Outcome Text (List (Text × ℕ)) → Outcome Error (List (Text × ℕ))
of_payload (ok payload) = ok (sum_requests payload [])
of_payload (err e) = err (external e)

abbrev pub of_upstreams :
    Outcome Text (ℕ × Outcome Text (List (Text × ℕ))) → Outcome Error (List (Text × ℕ))
of_upstreams (err e) = err (external e)
of_upstreams (ok (code, payload)) =
    if code == 200 then of_payload payload else err (status_error code)

-- ActiveRequests
unfoldable pub read_active_requests :
    Outcome Text (ℕ × Outcome Text (List (Text × ℕ))) → World → Outcome Error (List (Text × ℕ))
unfolding sum_requests
read_active_requests answer w = if is_running w.caddy then of_upstreams answer else ok []

-- ===== src/Verification.antt =====
-- internal/app/verification.go: the final URL of a preview is requested and must answer at its origin.
pub mod Origin
pub mod Redirect
pub mod Attempt
pub mod Run
pub mod SameOrigin
pub mod Accepted
pub mod Results
pub mod Report
pub mod Bounds
pub mod Deadline
use tailpreview.Base.{ℕ, String, Bool, Option, List}
use tailpreview.Base.Strings.{Text}
use tailpreview.Url.{Url}

-- A request, and a pause of 250 milliseconds before the next attempt.
pub data Action : Type 0 where
  requested : Url → Action
  paused : Action

-- Newest first.
abbrev pub Trace : Type 0
Trace = List Action

-- The header Location of a response, resolved against the URL of the request.
pub data Location : Type 0 where
  absent unusable : Location
  target : Url → Location

-- What the transport answers to one request.
pub data Answer : Type 0 where
  failed : Answer
  replied : ℕ → Location → Answer

-- The network, the clock and the context, which may answer by everything that happened before; and
-- the functions of net and net/url that the verifier calls.
pub record Web : Type 0 where
  pub get : Trace → Url → Answer
  pub now : Trace → ℕ
  -- ctx.Err(), and the case `<-ctx.Done()` of the select
  pub cancelled : Trace → Option Text
  pub stopped : Trace → Option Text
  -- http.NewRequestWithContext
  pub request_error : Url → Option Text
  -- net.SplitHostPort, net.JoinHostPort and URL.String
  pub split_host_port : Text → Option (Text × Text)
  pub join_host_port : Text → Text → Text
  pub print : Url → Text
  -- the path of a reference, resolved against that of its base
  pub resolve_path : Text → Text → Text

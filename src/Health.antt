-- ===== src/Health.antt =====
-- internal/health/health.go: requests to the local services, once or until they are healthy.
pub mod Check
pub mod Wait
pub mod Ends
pub mod Passes
use tailpreview.Base.{ℕ, Option, List}
use tailpreview.Base.Strings.{Text}
use tailpreview.Base.Outcome.{Outcome}
use tailpreview.Model.{HealthCheck}

-- A request, and a pause of 500 milliseconds before the next round.
pub data Step : Type 0 where
  probed : HealthCheck → Step
  paused : Step

-- Newest first.
abbrev pub Steps : Type 0
Steps = List Step

-- The services, the clock and the context, which may answer by everything that happened before: the
-- status of a response, which is that of a redirect where there is one; http.NewRequestWithContext;
-- and the case `<-ctx.Done()`.
pub record Site : Type 0 where
  pub request_error : HealthCheck → Option Text
  pub get : Steps → HealthCheck → Outcome Text ℕ
  pub now : Steps → ℕ
  pub stopped : Steps → Option Text

pub data HealthError : Type 0 where
  bad_request : Text → HealthError
  unreachable : Text → Text → HealthError
  outside_range : Text → ℕ → ℕ → ℕ → HealthError

-- ===== src/Health/Check.antt =====
-- Checker.one, CheckOnce and Wait.
use tailpreview.Base.{
  ℕ, zero, suc, ◌+◌, ◌/◌, Bool, true, false, not, ◌&&◌, ◌||◌, Option, none, some, List, [], ◌∷◌,
  ◌++◌, ltb, ◌==◌, if◌then◌else◌,
}
use tailpreview.Base.Strings.{Text}
use tailpreview.Base.Outcome.{Outcome, ok, err}
use tailpreview.Model.{HealthCheck}
use tailpreview.Health.{
  Steps, Site, HealthError, probed, paused, bad_request, unreachable, outside_range,
}

-- 500 milliseconds, and thirty seconds, in nanoseconds.
abbrev pub round_pause : ℕ
round_pause = 500000000

abbrev pub default_wait : ℕ
default_wait = 30000000000

unfoldable pub wait_timeout : ℕ → ℕ
wait_timeout t = if t == 0 then default_wait else t

-- A round that failed, with its messages, or the error of the context.
pub data WaitError : Type 0 where
  did_not_pass : List HealthError → WaitError
  interrupted : Text → WaitError

module _ (site : Site) where
  abbrev pub judge_status : HealthCheck → Outcome Text ℕ → Option HealthError
  judge_status c (err e) = some (unreachable c.url e)
  judge_status c (ok n) =
      if ltb n c.min_code || ltb c.max_code n
      then some (outside_range c.url n c.min_code c.max_code)
      else none

  abbrev pub judge_request : HealthCheck → Option Text → Outcome Text ℕ → Option HealthError
  judge_request c (some e) r = some (bad_request e)
  judge_request c none r = judge_status c r

  -- `one`: what is wrong with a service after the steps `h`.
  unfoldable pub one : Steps → HealthCheck → Option HealthError
  one h c = judge_request c (site.request_error c) (site.get h c)

  abbrev pub add_failure : Bool → Option HealthError → List HealthError → List HealthError
  add_failure required none acc = acc
  add_failure required (some e) acc = if required then acc ++ e ∷ [] else acc

  -- The loop of CheckOnce, with `failures`.
  unfoldable pub failures_once : Steps → List HealthCheck → List HealthError → List HealthError
  failures_once h [] acc = acc
  failures_once h (c ∷ cs) acc =
      failures_once (probed c ∷ h) cs (add_failure c.required (one h c) acc)

  abbrev pub nil_or_failed : List HealthError → Option (List HealthError)
  nil_or_failed [] = none
  nil_or_failed (e ∷ es) = some (e ∷ es)

  -- `none` is nil.
  unfoldable pub check_all_once : Steps → List HealthCheck → Option (List HealthError)
  check_all_once h cs = nil_or_failed (failures_once h cs [])

  abbrev pub still_healthy : Bool → Bool → Option HealthError → Bool
  still_healthy healthy required none = healthy
  still_healthy healthy required (some _) = healthy && not required

  -- A round of Wait: `last`, `allHealthy` and the steps.
  unfoldable pub round :
      List HealthCheck → List HealthError → Bool → Steps → List HealthError × Bool × Steps
  round [] last healthy h = (last, healthy, h)
  round (c ∷ cs) last healthy h =
      let e = one h c in
      round cs (add_failure true e last) (still_healthy healthy c.required e) (probed c ∷ h)

  -- What a run returns, `none` without fuel, and `some none` for nil.
  abbrev pub Waited : Type 0
  Waited = Option (Option WaitError)

  abbrev pub on_stopped : Option Text → Waited → Waited
  on_stopped (some e) rest = some (some (interrupted e))
  on_stopped none rest = rest

  abbrev pub on_round : ℕ → (Steps → Waited) → List HealthError × Bool × Steps → Waited
  on_round deadline next (last, true, h) = some none
  on_round deadline next (last, false, h) =
      if ltb deadline (site.now h)
      then some (some (did_not_pass last))
      else on_stopped (site.stopped h) (next (paused ∷ h))

  unfoldable pub rounds : ℕ → ℕ → List HealthCheck → Steps → Waited
  rounds zero deadline cs h = none
  rounds (suc fuel) deadline cs h = on_round deadline (rounds fuel deadline cs) (round cs [] true h)

  -- One round at once, one for each pause until the deadline, and one after it.
  unfoldable pub wait_healthy : ℕ → List HealthCheck → Steps → Waited
  wait_healthy timeout [] h = some none
  wait_healthy timeout (c ∷ cs) h =
      let t = wait_timeout timeout in
      rounds (suc (suc (t / round_pause))) (site.now h + t) (c ∷ cs) h

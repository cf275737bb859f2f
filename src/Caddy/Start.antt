-- ===== src/Caddy/Start.antt =====
-- start of internal/caddy/manager.go: the launch of Caddy and the wait for its socket.
use tailpreview.Base.{
  ℕ, zero, suc, ◌+◌, ◌*◌, ◌/◌, ◌<◌, ◌≤◌, ◌≡◌, refl, ap, ◌∙◌, Bool, true, Option, none, some, ltb,
  if◌then◌else◌, arith, Bool-cases, inl, inr,
}
use tailpreview.Base.Strings.{Text}

pub data StartError : Type 0 where
  no_log_file : Text → StartError
  start_caddy : Text → StartError
  cancelled : Text → StartError
  no_socket : StartError

-- What os.OpenFile and cmd.Start answer; and, for the n-th time in the loop, time.Now, whether a
-- connection to the socket is made, and the case `<-ctx.Done()`.
pub record Launch : Type 0 where
  pub opening : Option Text
  pub starting : Option Text
  pub start_time : ℕ
  pub now : ℕ → ℕ
  pub is_running : ℕ → Bool
  pub stopped : ℕ → Option Text

abbrev pub second : ℕ
second = 1000000000

abbrev pub start_timeout : ℕ
start_timeout = 5 * second

abbrev pub poll_pause : ℕ
poll_pause = 100000000

-- What a run returns: `none` without fuel, and `some none` for nil.
abbrev pub Started : Type 0
Started = Option (Option StartError)

module _ (launch : Launch) where
  abbrev pub on_stopped : Option Text → Started → Started
  on_stopped (some e) rest = some (some (cancelled e))
  on_stopped none rest = rest

  -- The loop from its n-th turn on.
  unfoldable pub polls : ℕ → ℕ → ℕ → Started
  polls zero n deadline = none
  polls (suc fuel) n deadline =
      let rest : Started = polls fuel (suc n) deadline in
      if ltb (launch.now n) deadline
      then (if launch.is_running n then some none else on_stopped (launch.stopped n) rest)
      else some (some no_socket)

  abbrev pub on_start : Option Text → Started → Started
  on_start (some e) rest = some (some (start_caddy e))
  on_start none rest = rest

  abbrev pub on_log : Option Text → Started → Started
  on_log (some e) rest = some (some (no_log_file e))
  on_log none rest = rest

  -- One turn at once, one for each pause until the deadline, and one after it.
  unfoldable pub start_caddy_process : Started
  unfolding polls
  start_caddy_process = on_log launch.opening (
      on_start launch.starting
        (polls (suc (suc (start_timeout / poll_pause))) 0 (launch.start_time + start_timeout)))

  -- The clock does not run backwards, and a turn takes at least the pause.
  pub record Ticks : Type 0 where
    pub first : launch.start_time ≤ launch.now 0
    pub pauses : (n : ℕ) → launch.now n + poll_pause ≤ launch.now (suc n)

  on_stopped_ends :
      (o : Option Text) (rest : Started)
      → (r : Option StartError) × (rest ≡ some r)
      → (r : Option StartError) × (on_stopped o rest ≡ some r)
  on_stopped_ends (some e) rest h = (some (cancelled e), refl)
  on_stopped_ends none rest h = h

  polls_end :
      Ticks
      → (fuel n deadline : ℕ) → deadline ≤ launch.now n + fuel * poll_pause
      → (r : Option StartError) × (polls (suc fuel) n deadline ≡ some r)
  unfolding polls
  polls_end t zero n deadline h = (some no_socket, ground arith)
  polls_end t (suc fuel) n deadline h = elim (Bool-cases (ltb (launch.now n) deadline)) [
    | inr e ↦ (some no_socket, rw e refl)
    | inl e ↦ elim (Bool-cases (launch.is_running n)) [
      | inl f ↦ (none, rw (e, f) refl)
      | inr f ↦
          rw (e, f)
            (on_stopped_ends (launch.stopped n) (polls (suc fuel) (suc n) deadline)
              (polls_end t fuel (suc n) deadline (omega (arith, t.pauses n, h))))
    ]
  ]

  start_ends : Ticks → (r : Option StartError) × (start_caddy_process ≡ some r)
  unfolding start_caddy_process
  start_ends t = on_log_ends launch.opening
    where
      deadline : ℕ
      deadline = launch.start_time + start_timeout

      on_start_ends :
          (o : Option Text)
          → (r : Option StartError) × (on_start o
                (polls (suc (suc (start_timeout / poll_pause))) 0 deadline)
              ≡ some r)
      on_start_ends (some e) = (some (start_caddy e), refl)
      on_start_ends none =
          polls_end t (suc (start_timeout / poll_pause)) 0 deadline (omega (arith, t.first))

      on_log_ends :
          (o : Option Text)
          → (r : Option StartError) × (on_log o (
                on_start launch.starting
                  (polls (suc (suc (start_timeout / poll_pause))) 0 deadline))
              ≡ some r)
      on_log_ends (some e) = (some (no_log_file e), refl)
      on_log_ends none = on_start_ends launch.starting

  -- Nothing stops the loop before its turn `k`, at which the socket answers in time.
  pub record Answers (k : ℕ) : Type 0 where
    pub log : launch.opening ≡ none
    pub process : launch.starting ≡ none
    pub running : launch.is_running k ≡ true
    pub in_time : (n : ℕ) → n ≤ k → launch.now n < launch.start_time + start_timeout
    pub not_stopped : (n : ℕ) → n < k → launch.stopped n ≡ none

  polls_nil :
      (k : ℕ)
      → Answers k
      → (fuel left n : ℕ) (r : Option StartError) → n + left ≡ k
      → polls fuel n (launch.start_time + start_timeout) ≡ some r
      → r ≡ none
  unfolding polls
  polls_nil k a zero left n r e h = absurd (cc h)
  polls_nil k a (suc fuel) zero n r e h = ground (arith, a.running, a.in_time n (omega arith))
  polls_nil k a (suc fuel) (suc left) n r e h = elim (Bool-cases (launch.is_running n)) [
    | inl f ↦ ground (arith, a.in_time n (omega arith))
    | inr f ↦
        let rest : polls fuel (suc n) (launch.start_time + start_timeout) ≡ some r =
          ground (arith, a.in_time n (omega arith), a.not_stopped n (omega arith)) in
        polls_nil k a fuel left (suc n) r (omega (arith, e)) rest
  ]

  -- If the clock never goes back and goes on by a pause in each turn, start always returns. If the log
  -- file opens, the process starts, and the socket answers in some turn before the deadline, until which
  -- the context is not cancelled, it returns nil.
  pub start_lem :
      Ticks
      → ((r : Option StartError) × (start_caddy_process ≡ some r))
        × ((k : ℕ) → Answers k → start_caddy_process ≡ some none)
  unfolding start_caddy_process
  start_lem t = (start_ends t, λ k a. answered k a (start_ends t))
    where
      answered :
          (k : ℕ)
          → Answers k
          → (r : Option StartError) × (start_caddy_process ≡ some r)
          → start_caddy_process ≡ some none
      answered k a (r, h) =
          let run : polls (suc (suc (start_timeout / poll_pause))) 0
                (launch.start_time + start_timeout)
              ≡ some r =
            ground (arith, a.log, a.process) in
          h
          ∙ ap (λ x. some x)
              (polls_nil k a (suc (suc (start_timeout / poll_pause))) k 0 r (omega arith) run)

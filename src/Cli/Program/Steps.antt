-- ===== src/Cli/Program/Steps.antt =====
-- Each invocation of cmd/tailpreview/main.go is at most one step of the service.
use tailpreview.Base.{true, false, ◌≡◌, refl, sym, subst, ap, ◌∙◌, List, [], ◌∷◌, ◌++◌}
use tailpreview.Base.Lists.{All}
use tailpreview.Base.Strings.{Text, codes}
use tailpreview.Base.Outcome.{Outcome, ok, err}
use tailpreview.Errors.{Error, not_found}
use tailpreview.Model.{Preview}
use tailpreview.Host.{Service, World}
use tailpreview.Service.Valid.{IsValid}
use tailpreview.Host.Monad.{M, pure, lift, continue, ◌>>=◌}
use tailpreview.Service.Up.{UpRequest, up}
use tailpreview.Service.Check.{check}
use tailpreview.Service.Down.{down}
use tailpreview.Service.Gc.{gc}
use tailpreview.Service.Listing.{list, set_pinned}
use tailpreview.Service.Command.{
  Command, up_command, down_command, check_command, pin_command, unpin_command, list_command,
  gc_command, done, run_command, run_commands,
}
use tailpreview.Service.Command.Invariant.{run_commands-IsValid}
use tailpreview.Cli.{Shell}
use tailpreview.Cli.Project.{selector_from_args}
use tailpreview.Cli.Flags.{up_request}
use tailpreview.Cli.Program.Found.{IsOther, IsFirst, find_listed_ok, find_listed_err}
use tailpreview.Cli.Program.{
  Invocation, up_with, down_with, check_with, status_with, logs_with, pin_with, unpin_with,
  list_all, collect_garbage, Answer, published, acted, checked, listed, shown, log_file, answer,
  log_path, find_listed, execute, run_program,
}

-- An action that ends in a value without a call leaves the world of the action before it.
abbrev IsQuiet : {A : Type 0} → M A → Type 0
IsQuiet m = (w : World) → (m w).1 ≡ w

continue_world :
    {A B : Type 0} (r : Outcome Error A) (f : A → M B) (w : World)
    → ((a : A) → IsQuiet (f a))
    → (continue r f w).1 ≡ w
continue_world (ok a) f w q = q a w
continue_world (err e) f w q = refl

pub done_world : {A : Type 0} (m : M A) (w : World) → (done m w).1 ≡ (m w).1
done_world m w = continue_world (m w).0 (λ _. pure tt) (m w).1 (λ a v. refl)

module _ (s : Service) (shell : Shell) (logs_dir : Text) where
  -- The command of the service that an invocation stands for.
  pub data Runs : Invocation → Command → Type 0 where
    runs_up :
        (flags : _) (request : UpRequest)
        → up_request shell flags ≡ ok request
        → Runs (up_with flags) (up_command request)
    runs_down :
        (args : List Text) (sel : Text)
        → selector_from_args shell args ≡ ok sel
        → Runs (down_with args) (down_command sel)
    runs_check :
        (args : List Text) (sel : Text)
        → selector_from_args shell args ≡ ok sel
        → Runs (check_with args) (check_command sel)
    runs_status :
        (args : List Text) (sel : Text)
        → selector_from_args shell args ≡ ok sel
        → Runs (status_with args) list_command
    runs_logs :
        (args : List Text) (sel : Text)
        → selector_from_args shell args ≡ ok sel
        → Runs (logs_with args) list_command
    runs_pin :
        (args : List Text) (sel : Text)
        → selector_from_args shell args ≡ ok sel
        → Runs (pin_with args) (pin_command sel)
    runs_unpin :
        (args : List Text) (sel : Text)
        → selector_from_args shell args ≡ ok sel
        → Runs (unpin_with args) (unpin_command sel)
    runs_list : Runs list_all list_command
    runs_gc : Runs collect_garbage gc_command

  -- The arguments of the invocation are refused with this error.
  abbrev pub Refuses : Invocation → Error → Type 0
  Refuses (up_with flags) e = up_request shell flags ≡ err e
  Refuses (down_with args) e = selector_from_args shell args ≡ err e
  Refuses (check_with args) e = selector_from_args shell args ≡ err e
  Refuses (status_with args) e = selector_from_args shell args ≡ err e
  Refuses (logs_with args) e = selector_from_args shell args ≡ err e
  Refuses (pin_with args) e = selector_from_args shell args ≡ err e
  Refuses (unpin_with args) e = selector_from_args shell args ≡ err e
  Refuses list_all e = ⊥
  Refuses collect_garbage e = ⊥

  -- Status and logs look for this selector in the list.
  abbrev pub Reads : Invocation → Text → Type 0
  Reads (status_with args) sel = selector_from_args shell args ≡ ok sel
  Reads (logs_with args) sel = selector_from_args shell args ≡ ok sel
  Reads _ sel = ⊥

  module _ (w : World) where
    abbrev pub Acts : {A : Type 0} → List Text → (Text → M A) → A → Type 0
    Acts args act r =
        (sel : Text) × (selector_from_args shell args ≡ ok sel) × ((act sel w).0 ≡ ok r)

    -- What is answered is what the service returned, and for status and logs the first preview of the
    -- list that matches.
    abbrev pub Fits : Invocation → Answer → Type 0
    Fits (up_with flags) (published r) =
        (q : UpRequest) × (up_request shell flags ≡ ok q) × ((up s q w).0 ≡ ok r)
    Fits (down_with args) (acted r) = Acts args (down s) r
    Fits (check_with args) (checked r) = Acts args (check s) r
    Fits (pin_with args) (acted r) = Acts args (λ sel. set_pinned s sel true) r
    Fits (unpin_with args) (acted r) = Acts args (λ sel. set_pinned s sel false) r
    Fits (status_with args) (shown p) =
        (sel : Text) × (ps : List Preview) × (selector_from_args shell args ≡ ok sel)
        × ((list s w).0 ≡ ok ps)
        × IsFirst sel ps p
    Fits (logs_with args) (log_file p path) =
        (sel : Text) × (ps : List Preview) × (selector_from_args shell args ≡ ok sel)
        × ((list s w).0 ≡ ok ps)
        × IsFirst sel ps p
        × (path ≡ logs_dir ++ b'/' ∷ (p.id ++ codes ".jsonl"))
    Fits list_all (listed ps) = (list s w).0 ≡ ok ps
    Fits collect_garbage (acted r) = (gc s w).0 ≡ ok r
    Fits _ _ = ⊥

    -- The invocation is refused for its arguments and nothing happens; or its command runs, and it
    -- ends in the command's error or answers; or it lists and nothing in the list matches.
    pub data IsStep (i : Invocation) (r : Outcome Error Answer × World) : Type 0 where
      refused : (e : Error) → Refuses i e → r ≡ (err e, w) → IsStep i r
      failed :
          (c : Command) (e : Error)
          → Runs i c
          → (run_command s c w).0 ≡ err e
          → r.0 ≡ err e
          → r.1 ≡ (run_command s c w).1
          → IsStep i r
      answered :
          (c : Command) (a : Answer)
          → Runs i c
          → (run_command s c w).0 ≡ ok tt
          → Fits i a
          → r.0 ≡ ok a
          → r.1 ≡ (run_command s c w).1
          → IsStep i r
      missed :
          (sel : Text) (ps : List Preview)
          → Reads i sel
          → (list s w).0 ≡ ok ps
          → All (IsOther sel) ps
          → r.0 ≡ err (not_found sel)
          → r.1 ≡ (list s w).1
          → IsStep i r

    after_lift :
        {A : Type 0} (i : Invocation) (r : Outcome Error A) (f : A → M Answer)
        → ((e : Error) → r ≡ err e → Refuses i e)
        → ((a : A) → r ≡ ok a → IsStep i (f a w))
        → IsStep i ((lift r >>= f) w)
    after_lift i (ok a) f k l = l a refl
    after_lift i (err e) f k l = refused e (k e refl) refl

    -- A method whose value is answered.
    answer-IsStep :
        {A : Type 0} (i : Invocation) (m : M A) (g : A → Answer) (c : Command)
        → Runs i c
        → run_command s c w ≡ done m w
        → ((a : A) → (m w).0 ≡ ok a → Fits i (g a))
        → IsStep i (answer g m w)
    answer-IsStep i m g c runs same fits = by_result i g (m w).0 (m w).1 same fits runs
      where
        by_result :
            {A : Type 0} (j : Invocation) (h : A → Answer) (o : Outcome Error A) (v : World)
            → run_command s c w ≡ continue o (λ _. pure tt) v
            → ((a : A) → o ≡ ok a → Fits j (h a))
            → Runs j c
            → IsStep j (continue o (λ a. pure (h a)) v)
        by_result j h (ok a) v e k r =
            answered c _ r (ap (λ x. x.0) e) (k a refl) refl (sym (ap (λ x. x.1) e))
        by_result j h (err x) v e k r = failed c x r (ap (λ y. y.0) e) refl (sym (ap (λ y. y.1) e))

    -- The list, and the preview that is found in it.
    look-IsStep :
        (i : Invocation) (sel : Text) (g : Preview → Answer)
        → Reads i sel
        → Runs i list_command
        → ((ps : List Preview) (p : Preview)
            → (list s w).0 ≡ ok ps
            → IsFirst sel ps p
            → Fits i (g p))
        → IsStep i ((list s >>= λ ps. answer g (lift (find_listed sel ps))) w)
    unfolding run_command
    look-IsStep i sel g reads runs fits = by_list (list s w).0 (list s w).1 refl refl refl
      where
        by_found :
            (ps : List Preview) (v : World) (o : Outcome Error Preview)
            → find_listed sel ps ≡ o
            → (list s w).0 ≡ ok ps
            → (list s w).1 ≡ v
            → run_command s list_command w ≡ (ok tt, v)
            → IsStep i (answer g (lift o) v)
        by_found ps v (ok x) f p q e =
            answered list_command (g x) runs (ap (λ y. y.0) e)
              (fits ps x p (find_listed_ok sel ps x f)) refl (sym (ap (λ y. y.1) e))
        by_found ps v (err x) f p q e =
            let (same, others) = find_listed_err sel ps x f in
            missed sel ps reads p others (ap (λ y. err y) same) (sym q)

        by_list :
            (o : Outcome Error (List Preview)) (v : World)
            → (list s w).0 ≡ o
            → (list s w).1 ≡ v
            → run_command s list_command w ≡ continue o (λ _. pure tt) v
            → IsStep i (continue o (λ ps. answer g (lift (find_listed sel ps))) v)
        by_list (err e) v p q k =
            failed list_command e runs (ap (λ y. y.0) k) refl (sym (ap (λ y. y.1) k))
        by_list (ok ps) v p q k = by_found ps v (find_listed sel ps) refl p q k

    -- An invocation is refused with the error of its arguments, and then nothing was called and the
    -- registry file is as it was; or the command of the service that belongs to it and its arguments
    -- runs, and it ends in the error of the command or answers what the method of the service returned,
    -- status and logs with the first preview of the list that has the selector as its identifier, name
    -- or project; or status or logs lists and no preview has it.
    pub execute-IsStep : (i : Invocation) → IsStep i (execute s shell logs_dir i w)
    unfolding execute run_command
    execute-IsStep (up_with flags) =
        after_lift (up_with flags) (up_request shell flags) _ (λ _ e. e)
          λ r e.
            answer-IsStep (up_with flags) (up s r) published (up_command r) (runs_up flags r e) refl
              (λ a k. (r, e, k))
    execute-IsStep (down_with args) =
        after_lift (down_with args) (selector_from_args shell args) _ (λ _ e. e)
          λ r e.
            answer-IsStep (down_with args) (down s r) acted (down_command r) (runs_down args r e)
              refl (λ a k. (r, e, k))
    execute-IsStep (check_with args) =
        after_lift (check_with args) (selector_from_args shell args) _ (λ _ e. e)
          λ r e.
            answer-IsStep (check_with args) (check s r) checked (check_command r)
              (runs_check args r e) refl (λ a k. (r, e, k))
    execute-IsStep (status_with args) =
        after_lift (status_with args) (selector_from_args shell args) _ (λ _ e. e)
          λ r e.
            look-IsStep (status_with args) r shown e (runs_status args r e)
              (λ ps p k f. (r, ps, e, k, f))
    execute-IsStep (logs_with args) =
        after_lift (logs_with args) (selector_from_args shell args) _ (λ _ e. e)
          λ r e.
            look-IsStep (logs_with args) r (log_path logs_dir) e (runs_logs args r e)
              (λ ps p k f. (r, ps, e, k, f, refl))
    execute-IsStep (pin_with args) =
        after_lift (pin_with args) (selector_from_args shell args) _ (λ _ e. e)
          λ r e.
            answer-IsStep (pin_with args) (set_pinned s r true) acted (pin_command r)
              (runs_pin args r e) refl (λ a k. (r, e, k))
    execute-IsStep (unpin_with args) =
        after_lift (unpin_with args) (selector_from_args shell args) _ (λ _ e. e)
          λ r e.
            answer-IsStep (unpin_with args) (set_pinned s r false) acted (unpin_command r)
              (runs_unpin args r e) refl (λ a k. (r, e, k))
    execute-IsStep list_all =
        answer-IsStep list_all (list s) listed list_command runs_list refl (λ a k. k)
    execute-IsStep collect_garbage =
        answer-IsStep collect_garbage (gc s) acted gc_command runs_gc refl (λ a k. k)

    step-IsValid :
        (i : Invocation) (r : Outcome Error Answer × World)
        → IsStep i r
        → IsValid s w.disk
        → IsValid s (r.1).disk
    unfolding run_command run_commands
    step-IsValid i r (refused e _ p) v = subst (λ x. IsValid s (x.1).disk) (sym p) v
    step-IsValid i r (failed c e _ _ _ p) v =
        subst (λ x. IsValid s x.disk) (sym p) (run_commands-IsValid s (c ∷ []) w v)
    step-IsValid i r (answered c a _ _ _ _ p) v =
        subst (λ x. IsValid s x.disk) (sym p) (run_commands-IsValid s (c ∷ []) w v)
    step-IsValid i r (missed sel ps _ _ _ _ p) v =
        subst (λ x. IsValid s x.disk) (done_world (list s) w ∙ sym p)
          (run_commands-IsValid s (list_command ∷ []) w v)

-- Whatever is invoked, one invocation after the other, from any directories and with any flags and
-- configuration files, a valid registry file stays valid.
pub run_program-IsValid :
    (s : Service) (logs_dir : Text) (runs : List (Shell × Invocation)) (w : World)
    → IsValid s w.disk
    → IsValid s (run_program s logs_dir runs w).disk
unfolding run_program
run_program-IsValid s logs_dir [] w v = v
run_program-IsValid s logs_dir ((shell, i) ∷ rest) w v =
    run_program-IsValid s logs_dir rest _
      (step-IsValid s shell logs_dir w i _ (execute-IsStep s shell logs_dir w i) v)

-- ===== src/Caddy/Applied.antt =====
-- What Apply of internal/caddy/manager.go promises.
use tailpreview.Base.{
  ℕ, ◌≡◌, refl, sym, subst, ◌∙◌, inl, inr, Bool, true, false, ◌&&◌, Option, none, some, List, [],
  ◌∷◌, ◌++◌, arith, Bool-cases,
}
use tailpreview.Base.Strings.{
  Text, text_eq, text_eq_iff, is_space, trim_left, trim_right, trim_space,
}
use tailpreview.Base.Outcome.{Outcome, ok, err}
use tailpreview.Errors.{Error}
use tailpreview.Model.{Preview}
use tailpreview.Caddy.Manager.{
  World, Calls, is_running, is_success, posted, load, stop_running, stop, started, run_with,
  replaced, continue, is_current, with_line_end, on_current, on_validated, on_written, on_generated,
  candidate, apply_previews,
}

module _ (p : ℕ → Bool) (a : ℕ) (blank : p a ≡ true) where
  trim_right_end : (s : Text) → trim_right p (s ++ a ∷ []) ≡ trim_right p s
  unfolding trim_right
  trim_right_end [] = rw blank refl
  trim_right_end (b ∷ s) = rw (trim_right_end s) refl

  trim_end : (s : Text) → trim_right p (trim_left p (s ++ a ∷ [])) ≡ trim_right p (trim_left p s)
  unfolding trim_left trim_right
  trim_end [] = rw blank refl
  trim_end (b ∷ s) = elim (Bool-cases (p b)) [
    | inl e ↦ rw e (trim_end s)
    | inr e ↦ rw e (trim_right_end (b ∷ s))
  ]

current_written : (c : Text) → is_current (some (with_line_end c)) c ≡ true
unfolding trim_space is_space
current_written c = (text_eq_iff _ _).1 (trim_end is_space b'\n' refl c)

-- A Caddy that runs has the configuration of the file, up to blanks around it.
abbrev pub IsSynced : World → Type 0
IsSynced w = (c : Text) → w.caddy ≡ some c → is_current w.file c ≡ true

-- Caddy runs with the configuration, and the file has it, up to blanks around it.
pub record Runs (config : Text) (w : World) : Type 0 where
  pub running : Text
  pub runs : w.caddy ≡ some running
  pub same : trim_space running ≡ trim_space config
  pub saved : is_current w.file config ≡ true

-- After load and start: Caddy has the configuration, or there was an error; the file is untouched.
abbrev HasTaken : Text → World → Outcome Error (Unit {0}) × World → Type 0
HasTaken config w (ok _, w') = (w'.caddy ≡ some config) × (w'.file ≡ w.file)
HasTaken config w (err _, w') = w'.file ≡ w.file

posted-HasTaken :
    (config : Text) (answer : Outcome (Text × Bool) ℕ) (w : World)
    → HasTaken config w (posted (some config) answer w)
posted-HasTaken config (err (e, taken)) w = refl
posted-HasTaken config (ok code) w = elim (Bool-cases (is_success code)) [
  | inl e ↦ rw e (refl, refl)
  | inr e ↦ rw e refl
]

started-HasTaken :
    (config : Text) (answer : Option (Error × Bool)) (w : World)
    → HasTaken config w (started config answer w)
started-HasTaken config (some (e, taken)) w = refl
started-HasTaken config none w = (refl, refl)

run_with-HasTaken :
    (calls : Calls) (config : Text) (b : Bool) (w : World)
    → HasTaken config w (run_with calls config b w)
unfolding load
run_with-HasTaken calls config true w = posted-HasTaken config calls.load w
run_with-HasTaken calls config false w = started-HasTaken config calls.start w

-- Apply returned nil and Caddy runs with the configuration, which the file has, or it returned an
-- error and the file is as before.
abbrev pub IsApplied : Text → World → Outcome Error (Unit {0}) × World → Type 0
IsApplied config w (ok _, w') = Runs config w'
IsApplied config w (err _, w') = w'.file ≡ w.file

replaced-IsApplied :
    (config : Text) (o : Option Text) (w w1 : World)
    → w1.caddy ≡ some config
    → w1.file ≡ w.file
    → IsApplied config w (replaced (with_line_end config) o w1)
replaced-IsApplied config (some e) w w1 c f = f
replaced-IsApplied config none w w1 c f = record {
  running = config;
  runs = c;
  same = refl;
  saved = current_written config;
}

continue-IsApplied :
    (config : Text) (o : Option Text) (w : World) (r : Outcome Error (Unit {0}) × World)
    → HasTaken config w r
    → IsApplied config w (continue r (replaced (with_line_end config) o))
continue-IsApplied config o w (ok _, w1) h = replaced-IsApplied config o w w1 h.0 h.1
continue-IsApplied config o w (err e, w1) h = h

-- Where the file is current and a Caddy runs that is synced with it, nothing has to be done.
current-Runs :
    (config : Text) (w : World)
    → IsSynced w
    → is_current w.file config ≡ true
    → is_running w.caddy ≡ true
    → Runs config w
unfolding trim_space
current-Runs config w s c r = by_parts w.caddy w.file refl refl
  where
    by_parts : (caddy file : Option Text) → w.caddy ≡ caddy → w.file ≡ file → Runs config w
    by_parts none file e f = absurd (ground arith)
    by_parts (some running) none e f = absurd (ground arith)
    by_parts (some running) (some current) e f =
        let this : text_eq (trim_space current) (trim_space config) ≡ true = ground arith in
        let that : text_eq (trim_space current) (trim_space running) ≡ true =
          subst (λ x. is_current x running ≡ true) f (s running e) in
        record {
          running = running;
          runs = e;
          same = sym ((text_eq_iff _ _).0 that) ∙ (text_eq_iff _ _).0 this;
          saved = c;
        }

on_current-IsApplied :
    (calls : Calls) (config : Text) (w : World) (b : Bool)
    → IsSynced w
    → is_current w.file config && is_running w.caddy ≡ b
    → IsApplied config w (on_current calls config b w)
on_current-IsApplied calls config w true s e = current-Runs config w s (ground arith) (ground arith)
on_current-IsApplied calls config w false s e =
    continue-IsApplied config calls.replace w _
      (run_with-HasTaken calls config (is_running w.caddy) w)

on_validated-IsApplied :
    (calls : Calls) (config : Text) (w : World) (validated : Option Text)
    → IsSynced w
    → IsApplied config w (on_validated calls config validated w)
on_validated-IsApplied calls config w (some e) s = refl
on_validated-IsApplied calls config w none s = on_current-IsApplied calls config w _ s refl

on_written-IsApplied :
    (calls : Calls) (config : Text) (w : World) (written : Option Text)
    → IsSynced w
    → IsApplied config w (on_written calls config written w)
on_written-IsApplied calls config w (some e) s = refl
on_written-IsApplied calls config w none s = on_validated-IsApplied calls config w calls.validate s

-- What Apply makes of a list that is not empty, and of the empty list.
abbrev pub IsApplication : Calls → List Preview → World → Outcome Error (Unit {0}) × World → Type 0
IsApplication calls [] w (ok _, w') = (w'.caddy ≡ none) × (w'.file ≡ w.file)
IsApplication calls [] w (err _, w') = w'.file ≡ w.file
IsApplication calls (p ∷ ps) w (ok _, w') =
    (config : Text) × (candidate calls (p ∷ ps) ≡ ok config) × Runs config w'
IsApplication calls (p ∷ ps) w (err _, w') = w'.file ≡ w.file

applied_list :
    (calls : Calls) (p : Preview) (ps : List Preview) (w : World) (config : Text)
    (r : Outcome Error (Unit {0}) × World)
    → candidate calls (p ∷ ps) ≡ ok config
    → IsApplied config w r
    → IsApplication calls (p ∷ ps) w r
applied_list calls p ps w config (ok _, w') e h = (config, e, h)
applied_list calls p ps w config (err _, w') e h = h

generated_list :
    (calls : Calls) (p : Preview) (ps : List Preview) (w : World) (g : Outcome Error Text)
    → IsSynced w
    → candidate calls (p ∷ ps) ≡ g
    → IsApplication calls (p ∷ ps) w (on_generated calls g w)
generated_list calls p ps w (err e) s h = refl
generated_list calls p ps w (ok config) s h =
    applied_list calls p ps w config _ h
      (on_written-IsApplied calls config w calls.write_candidate s)

stopped :
    (answer : Outcome (Text × Bool) ℕ) (calls : Calls) (w : World)
    → IsApplication calls [] w (posted none answer w)
stopped (err (e, taken)) calls w = refl
stopped (ok code) calls w = elim (Bool-cases (is_success code)) [
  | inl e ↦ rw e (refl, refl)
  | inr e ↦ rw e refl
]

stop-IsApplication :
    (calls : Calls) (w : World) (b : Bool)
    → is_running w.caddy ≡ b
    → IsApplication calls [] w (stop_running calls b w)
stop-IsApplication calls w true e = stopped calls.stop calls w
stop-IsApplication calls w false e = not_running w.caddy refl
  where
    not_running : (c : Option Text) → w.caddy ≡ c → (w.caddy ≡ none) × (w.file ≡ w.file)
    not_running none f = (f, refl)
    not_running (some c) f = absurd (ground arith)

-- If a Caddy that runs has the configuration of the file, then: an Apply of previews that returns nil
-- leaves a Caddy running with their configuration, up to blanks around it, which the file has as well;
-- an Apply of no previews that returns nil leaves no Caddy running; and an Apply that returns an error
-- leaves the file as it was.
pub apply_previews-IsApplication :
    (calls : Calls) (ps : List Preview) (w : World)
    → IsSynced w
    → IsApplication calls ps w (apply_previews calls ps w)
unfolding apply_previews stop
apply_previews-IsApplication calls [] w s = stop-IsApplication calls w (is_running w.caddy) refl
apply_previews-IsApplication calls (p ∷ ps) w s =
    generated_list calls p ps w (candidate calls (p ∷ ps)) s refl

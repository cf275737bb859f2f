-- ===== src/Scheduler/Installed.antt =====
-- What Install and Uninstall of internal/scheduler/scheduler.go do to the files.
use tailpreview.Base.{
  ◌≡◌, refl, sym, ap, ◌∙◌, Option, none, some, arith, Bool-cases, inl, inr, if◌then◌else◌,
}
use tailpreview.Base.Strings.{Text, text_eq, text_eq_iff}
use tailpreview.Base.Outcome.{Outcome, ok, err}
use tailpreview.Errors.{Error}
use tailpreview.Store.{Files, put, Disk, Action, continue, ◌>>=◌, ◌>>◌, call, same_files, of_json}
use tailpreview.Scheduler.{
  Platform, darwin, linux, other_platform, System, Result, render_launch_agent, render_service,
  timer_unit, agents_dir, agent_path, units_dir, service_path, timer_path, attempt, done,
  remove_existing, home_or_empty, launchctl, disable_command, reload_command, enable_command,
  remove_unit, install_launch_agent, install_systemd, install_on, install, uninstall_on, uninstall,
}

-- Read by read, one file system is another.
abbrev pub SameFiles : Files → Files → Type 0
SameFiles f g = (q : Text) → f q ≡ g q

put-SameFiles :
    (p : Text) (c : Option Text) (f g : Files) → SameFiles f g → SameFiles (put p c f) (put p c g)
put-SameFiles p c f g h q = elim (Bool-cases (text_eq q p)) [
  | inl e ↦ rw e refl
  | inr e ↦ rw e (h q)
]

-- An action that changes the files as told if it succeeds.
record Moves {A : Type 0} (g : Files → Files) (m : Action A) : Type 0 where
  move : (d d' : Disk) (a : A) → m d ≡ (ok a, d') → SameFiles d'.files (g d.files)
  respects : (f h : Files) → SameFiles f h → SameFiles (g f) (g h)

Moves-call :
    (o : Option Text) (g : Files → Files)
    → ((f h : Files) → SameFiles f h → SameFiles (g f) (g h))
    → Moves g (call o g)
Moves-call none g r = record { move = λ d d' a h q. sym (ap (λ x. (x.1).files q) h); respects = r }
Moves-call (some e) g r = record { move = λ d d' a h. absurd (cc h); respects = r }

Moves-same : (o : Option Text) → Moves same_files (call o same_files)
Moves-same o = Moves-call o same_files (λ f h s. s)

Moves-put : (o : Option Text) (p : Text) (c : Option Text) → Moves (put p c) (call o (put p c))
Moves-put o p c = Moves-call o (put p c) (put-SameFiles p c)

Moves-attempt : (o : Option Text) → Moves same_files (attempt (call o same_files))
Moves-attempt none = record {
  move = λ d d' a h q. sym (ap (λ x. (x.1).files q) h);
  respects = λ f h s. s;
}
Moves-attempt (some e) = record {
  move = λ d d' a h q. sym (ap (λ x. (x.1).files q) h);
  respects = λ f h s. s;
}

Moves-done : (r : Result) → Moves same_files (done r)
Moves-done r = record {
  move = λ d d' a h q. sym (ap (λ x. (x.1).files q) h);
  respects = λ f h s. s;
}

continue_ok :
    {A B : Type 0} (r : Outcome Error A) (f : A → Action B) (d d' : Disk) (b : B)
    → continue r f d ≡ (ok b, d')
    → (a : A) × (r ≡ ok a) × (f a d ≡ (ok b, d'))
continue_ok (ok a) f d d' b h = (a, refl, h)
continue_ok (err x) f d d' b h = absurd (cc h)

infixr 4 ◌then◌
◌then◌ :
    {A B : Type 0} {g h : Files → Files} {m : Action A} {k : Action B}
    → Moves g m
    → Moves h k
    → Moves (λ f. h (g f)) (m >> k)
◌then◌ {g = g} {h = h} {m = m} {k = k} x y = record {
  move = λ d d' b e.
      let (a, p, l) = continue_ok (m d).0 (λ _. k) (m d).1 d' b e in
      λ q.
        y.move (m d).1 d' b l q ∙ y.respects _ _ (x.move d (m d).1 a (ap (λ z. (z, (m d).1)) p)) q;
  respects = λ f f' s. y.respects _ _ (x.respects f f' s);
}

-- A file that is put and then put away is as if only the last was done.
put_twice :
    (p : Text) (c c' : Option Text) (f : Files) → SameFiles (put p c (put p c' f)) (put p c f)
put_twice p c c' f q = elim (Bool-cases (text_eq q p)) [ inl e ↦ rw e refl | inr e ↦ rw e refl ]

put_absent : (p : Text) (f : Files) → f p ≡ none → SameFiles f (put p none f)
put_absent p f h q = elim (Bool-cases (text_eq q p)) [
  | inl e ↦ rw e (ap f ((text_eq_iff q p).0 e) ∙ h)
  | inr e ↦ rw e refl
]

module _ (sys : System) where
  remove_existing_files :
      (path : Text) (answer contents : Option Text) (d : Disk)
      → d.files path ≡ contents
      → (remove_existing path answer contents d).0 ≡ ok tt
      → SameFiles (remove_existing path answer contents d).1.files (put path none d.files)
  remove_existing_files path answer none d e h q = put_absent path d.files e q
  remove_existing_files path none (some c) d e h q = refl
  remove_existing_files path (some x) (some c) d e h q = absurd (cc h)

  Moves-remove : (path : Text) → Moves (put path none) (remove_unit sys path)
  unfolding remove_unit
  Moves-remove path = record {
    move = λ d d' a h q.
        sym (ap (λ x. (x.1).files q) h)
        ∙ remove_existing_files path (sys.remove path) (d.files path) d refl (ap (λ x. x.0) h) q;
    respects = put-SameFiles path none;
  }

  -- What is installed, and what is removed.
  abbrev pub installed : Platform → Text → Text → Files → Files
  installed darwin home binary f = put (agent_path home) (some (render_launch_agent binary)) f
  installed linux home binary f =
      put (timer_path home) (some timer_unit)
        (put (service_path home) (some (render_service binary)) f)
  installed (other_platform name) home binary f = f

  abbrev pub cleared : Platform → Text → Files → Files
  cleared darwin home f = put (agent_path home) none f
  cleared linux home f = put (timer_path home) none (put (service_path home) none f)
  cleared (other_platform name) home f = f

  abbrev pub IsInstalled : Platform → Text → Disk → Disk → Type 0
  IsInstalled platform binary d d' =
      (home : Text) × (sys.home ≡ ok home)
      × SameFiles d'.files (installed platform home binary d.files)

  home_ok :
      (k : Text → Action Result) (d d' : Disk) (r : Result) (home : Outcome Text Text)
      → (of_json home >>= k) d ≡ (ok r, d')
      → (t : Text) × (home ≡ ok t) × (k t d ≡ (ok r, d'))
  home_ok k d d' r (ok t) h = (t, refl, h)
  home_ok k d d' r (err e) h = absurd (cc h)

  install-IsInstalled :
      (platform : Platform) (binary : Text) (d d' : Disk) (r : Result)
      → install_on sys platform binary d ≡ (ok r, d')
      → IsInstalled platform binary d d'
  unfolding install_launch_agent install_systemd
  install-IsInstalled darwin binary d d' r h =
      let (home, e, k) = home_ok _ d d' r sys.home h in
      let moves =
        Moves-same (sys.make_directory (agents_dir home))
        then Moves-put (sys.write (agent_path home)) (agent_path home)
            (some (render_launch_agent binary))
        then Moves-attempt (sys.run (launchctl sys "bootout" (agent_path home)))
        then Moves-same (sys.run (launchctl sys "bootstrap" (agent_path home)))
        then Moves-done _ in
      (home, e, moves.move d d' r k)
  install-IsInstalled linux binary d d' r h =
      let (home, e, k) = home_ok _ d d' r sys.home h in
      let moves =
        Moves-same (sys.make_directory (units_dir home))
        then Moves-put (sys.write (service_path home)) (service_path home)
            (some (render_service binary))
        then Moves-put (sys.write (timer_path home)) (timer_path home) (some timer_unit)
        then Moves-same (sys.run reload_command)
        then Moves-same (sys.run enable_command)
        then Moves-done _ in
      (home, e, moves.move d d' r k)
  install-IsInstalled (other_platform name) binary d d' r h = absurd (cc h)

  uninstall-cleared :
      (platform : Platform) (d d' : Disk) (r : Result)
      → uninstall_on sys platform d ≡ (ok r, d')
      → SameFiles d'.files (cleared platform (home_or_empty sys.home) d.files)
  uninstall-cleared darwin d d' r h =
      let path = agent_path (home_or_empty sys.home) in
      let moves =
        Moves-attempt (sys.run (launchctl sys "bootout" path))
        then Moves-remove path
        then Moves-done _ in
      moves.move d d' r h
  uninstall-cleared linux d d' r h =
      let moves =
        Moves-attempt (sys.run disable_command)
        then Moves-remove (service_path (home_or_empty sys.home))
        then Moves-remove (timer_path (home_or_empty sys.home))
        then Moves-attempt (sys.run reload_command)
        then Moves-done _ in
      moves.move d d' r h
  uninstall-cleared (other_platform name) d d' r h = absurd (cc h)

  -- Removed after it was installed, nothing is left.
  cleared-installed :
      (platform : Platform) (home binary : Text) (f : Files)
      → SameFiles
          (cleared platform home (installed platform home binary f))
          (cleared platform home f)
  cleared-installed darwin home binary f q =
      put_twice (agent_path home) none (some (render_launch_agent binary)) f q
  cleared-installed linux home binary f q = ground arith
  cleared-installed (other_platform name) home binary f q = refl

  cleared-SameFiles :
      (platform : Platform) (home : Text) (f g : Files)
      → SameFiles f g
      → SameFiles (cleared platform home f) (cleared platform home g)
  cleared-SameFiles darwin home f g h q = put-SameFiles (agent_path home) none f g h q
  cleared-SameFiles linux home f g h q =
      put-SameFiles (timer_path home) none _ _ (put-SameFiles (service_path home) none f g h) q
  cleared-SameFiles (other_platform name) home f g h q = h q

  -- If Install returns nil, the home directory is known, the unit files of the platform have the rendered
  -- texts, and every other file is as before. If then Uninstall returns nil, no unit file is there, and
  -- every other file is as before Install.
  pub install_lem :
      (binary : Text) (d d1 d2 : Disk) (r1 r2 : Result)
      → install sys binary d ≡ (ok r1, d1)
      → uninstall sys d1 ≡ (ok r2, d2)
      → (home : Text) × (sys.home ≡ ok home)
        × SameFiles d1.files (installed sys.platform home binary d.files)
        × SameFiles d2.files (cleared sys.platform home d.files)
  unfolding install uninstall
  install_lem binary d d1 d2 r1 r2 h k =
      let (home, e, i) = install-IsInstalled sys.platform binary d d1 r1 h in
      let u = uninstall-cleared sys.platform d1 d2 r2 k in
      (
        home,
        e,
        i,
        λ q.
            u q
            ∙ ap (λ x. cleared sys.platform (home_or_empty x) d1.files q) e
            ∙ cleared-SameFiles sys.platform home _ _ i q
            ∙ cleared-installed sys.platform home binary d.files q,
      )

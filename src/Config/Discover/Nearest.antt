-- ===== src/Config/Discover/Nearest.antt =====
-- Which directories Discover and findGitRoot of internal/config/config.go find.
use tailpreview.Base.{
  Bool, true, false, ◌||◌, none, some, [], ◌∷◌, ◌≡◌, refl, ◌⊎◌, inl, inr, Bool-cases,
}
use tailpreview.Base.Strings.{Text}
use tailpreview.Base.Outcome.{ok}
use tailpreview.Config.Discover.{
  Elements, Disk, Place, has_config, has_git_marker, git_root_from, find_git_root, file_name,
  at_directory, climb, start_directory, discover,
}

-- From the first directory up to the second; every directory before the second fails the test.
pub data Above (found : Elements → Bool) : Elements → Elements → Type 0 where
  here : {p : Elements} → Above found p p
  up : {e : Text} {p q : Elements} → found (e ∷ p) ≡ false → Above found p q → Above found (e ∷ p) q

-- The nearest directory that passes the test.
abbrev pub IsNearest : (Elements → Bool) → Elements → Elements → Type 0
IsNearest found p q = Above found p q × found q ≡ true

-- No directory up to the root passes it.
abbrev pub HasNone : (Elements → Bool) → Elements → Type 0
HasNone found p = Above found p [] × found [] ≡ false

-- The nearest directory that passes the test, or else the first directory.
abbrev pub NearestOr : (Elements → Bool) → Elements → Elements → Elements → Type 0
NearestOr found start p q = IsNearest found p q ⊎ (HasNone found p × q ≡ start)

nearest_above :
    (found : Elements → Bool) (start p q : Elements) (e : Text)
    → found (e ∷ p) ≡ false
    → NearestOr found start p q
    → NearestOr found start (e ∷ p) q
nearest_above found start p q e h (inl n) = inl (up h n.0, n.1)
nearest_above found start p q e h (inr n) = inr ((up h n.0.0, n.0.1), n.1)

module _ (disk : Disk) where
  git_root_from_lem :
      (start p : Elements) → NearestOr (has_git_marker disk) start p (git_root_from disk start p)
  unfolding git_root_from
  git_root_from_lem start [] = elim (Bool-cases (has_git_marker disk [])) [
    | inl e ↦ rw e (inl (here, e))
    | inr e ↦ rw e (inr ((here, refl), refl))
  ]
  git_root_from_lem start (d ∷ p) = elim (Bool-cases (has_git_marker disk (d ∷ p))) [
    | inl e ↦ rw e (inl (here, e))
    | inr e ↦ rw e (nearest_above _ start p _ d e (git_root_from_lem start p))
  ]

  -- A directory at which Discover stops.
  abbrev pub is_stop : Elements → Bool
  is_stop d = has_config disk d || has_git_marker disk d

  abbrev pub IsPlace : Elements → Elements → Place → Type 0
  IsPlace start p (some file, root) =
      (d : Elements) × IsNearest is_stop p d
      × has_config disk d ≡ true
      × file ≡ file_name ∷ d
      × NearestOr (has_git_marker disk) d d root
  IsPlace start p (none, root) =
      (IsNearest is_stop p root × has_config disk root ≡ false) ⊎ (HasNone is_stop p × root ≡ start)

  place_above :
      (start p : Elements) (e : Text) (place : Place)
      → is_stop (e ∷ p) ≡ false
      → IsPlace start p place
      → IsPlace start (e ∷ p) place
  place_above start p e (some file, root) h (d, n, c, f, g) = (d, (up h n.0, n.1), c, f, g)
  place_above start p e (none, root) h (inl (n, r)) = inl ((up h n.0, n.1), r)
  place_above start p e (none, root) h (inr (n, r)) = inr ((up h n.0, n.1), r)

  at_directory_lem :
      (start p : Elements) (above : Place)
      → (is_stop p ≡ false → IsPlace start p above)
      → IsPlace start p (at_directory disk p above)
  unfolding find_git_root
  at_directory_lem start p above h = elim (Bool-cases (has_config disk p)) [
    | inl e ↦ rw e (p, (here, rw e refl), e, refl, git_root_from_lem p p)
    | inr e ↦ rw e (elim (Bool-cases (has_git_marker disk p)) [
      | inl g ↦ rw g (inl ((here, rw (e, g) refl), e))
      | inr g ↦ rw g (h (rw (e, g) refl))
    ])
  ]

  climb_lem : (start p : Elements) → IsPlace start p (climb disk start p)
  unfolding climb
  climb_lem start [] = at_directory_lem start [] _ (λ h. inr ((here, h), refl))
  climb_lem start (e ∷ p) =
      at_directory_lem start (e ∷ p) _ (λ h. place_above start p e _ h (climb_lem start p))

  -- Where filepath.Abs gives a path, Discover stops at the nearest directory, from the start upwards,
  -- with a configuration file or `.git`. With the file it returns the file, and as the root the
  -- nearest directory from there with `.git`, or else the directory itself; without the file it
  -- returns no file and the directory. If there is no such directory up to the root, it returns no
  -- file and the first directory.
  pub discover-IsPlace :
      (start : Text) (path : Elements)
      → disk.absolute start ≡ ok path
      → (place : Place) × discover disk start ≡ ok place
        × IsPlace (start_directory disk path) (start_directory disk path) place
  unfolding discover
  discover-IsPlace start path h = (
    climb disk (start_directory disk path) (start_directory disk path),
    rw (h, discover) refl,
    climb_lem _ _,
  )

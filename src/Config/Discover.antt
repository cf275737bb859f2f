-- ===== src/Config/Discover.antt =====
-- Discover and findGitRoot of internal/config/config.go. A path is absolute and clean, as
-- filepath.Abs gives it: the list of its elements, the last first, so that filepath.Dir drops the
-- first of the list and the root is its own parent.
pub mod Nearest
use tailpreview.Base.{
  Bool, true, false, not, Option, none, some, List, [], ◌∷◌, ◌++◌, if◌then◌else◌,
}
use tailpreview.Base.Strings.{Text, codes}
use tailpreview.Base.Outcome.{Outcome, ok, err, ◌>>=◌}
use tailpreview.Errors.{Error, external}

abbrev pub Elements : Type 0
Elements = List Text

-- filepath.Abs, and os.Stat with IsDir: `none` where it fails.
pub record Disk : Type 0 where
  pub absolute : Text → Outcome Text Elements
  pub stat : Elements → Option Bool

-- The path as a text.
joined : Elements → Text
joined [] = []
joined (e ∷ es) = joined es ++ b'/' ∷ e

unfoldable pub path_text : Elements → Text
unfolding joined
path_text [] = codes "/"
path_text (e ∷ es) = joined (e ∷ es)

-- filepath.Dir
abbrev pub parent : Elements → Elements
parent [] = []
parent (e ∷ es) = es

abbrev pub exists : Option Bool → Bool
exists none = false
exists (some _) = true

abbrev pub is_file : Option Bool → Bool
is_file none = false
is_file (some is_dir) = not is_dir

abbrev pub file_name : Text
file_name = codes ".tailpreview.yml"

-- A configuration file and the project's root.
abbrev pub Place : Type 0
Place = Option Elements × Elements

module _ (disk : Disk) where
  abbrev pub has_config : Elements → Bool
  has_config cur = is_file (disk.stat (file_name ∷ cur))

  abbrev pub has_git_marker : Elements → Bool
  has_git_marker cur = exists (disk.stat (codes ".git" ∷ cur))

  -- The loop of findGitRoot.
  unfoldable pub git_root_from : Elements → Elements → Elements
  git_root_from start [] = if has_git_marker [] then [] else start
  git_root_from start (e ∷ es) =
      let above : Elements = git_root_from start es in
      if has_git_marker (e ∷ es) then e ∷ es else above

  unfoldable pub find_git_root : Elements → Elements
  unfolding git_root_from
  find_git_root start = git_root_from start start

  -- One directory of Discover's loop, with what the directories above give.
  abbrev pub at_directory : Elements → Place → Place
  at_directory cur above =
      if has_config cur
      then (some (file_name ∷ cur), find_git_root cur)
      else if has_git_marker cur
      then (none, cur)
      else above

  -- The loop of Discover.
  unfoldable pub climb : Elements → Elements → Place
  unfolding find_git_root
  climb start [] = at_directory [] (none, start)
  climb start (e ∷ es) = at_directory (e ∷ es) (climb start es)

  abbrev pub start_directory : Elements → Elements
  start_directory path = if is_file (disk.stat path) then parent path else path

  unfoldable pub discover : Text → Outcome Error Place
  unfolding climb
  discover start = elim (disk.absolute start) [
    | err e ↦ err (external e)
    | ok path ↦ ok (climb (start_directory path) (start_directory path))
  ]

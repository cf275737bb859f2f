-- ===== src/Cli/Project.antt =====
-- Where `up` of cmd/tailpreview/main.go finds the project and its name: the beginning of up,
-- deriveProjectName and selectorFromArgs.
use tailpreview.Base.{Option, none, some, List, [], ◌∷◌, ◌++◌}
use tailpreview.Base.Strings.{Text, trim_space, base}
use tailpreview.Base.Outcome.{Outcome, ok, err, ◌>>=◌}
use tailpreview.Errors.{Error, plain}
use tailpreview.Config.Decode.{decoded}
use tailpreview.Config.Discover.{Elements, Disk, Place, parent, path_text, discover}
use tailpreview.Cli.{Shell, UpFlags}

abbrev pub trimmed : Option Text → Text
trimmed none = []
trimmed (some s) = trim_space s

abbrev pub first_nonempty : Text → Text → Text
first_nonempty [] t = t
first_nonempty (c ∷ s) t = c ∷ s

abbrev pub with_branch : Text → Text → Text
with_branch repo [] = repo
with_branch repo (c ∷ s) = repo ++ b'-' ∷ c ∷ s

unfoldable pub derive_project_name : Shell → Text → Text
unfolding base
derive_project_name shell root =
    with_branch (base root)
      (first_nonempty (trimmed (shell.git_branch root)) (trimmed (shell.git_commit root)))

-- filepath.Abs
abbrev pub absolute : Disk → Text → Outcome Error Elements
absolute disk s = decoded (disk.absolute s)

-- `--config` replaces the file, and the root by its directory.
abbrev pub with_config : Disk → Text → Place → Outcome Error Place
with_config disk [] place = ok place
with_config disk (c ∷ s) place = absolute disk (c ∷ s) >>= λ file. ok (some file, parent file)

-- `--project-root` replaces the root.
abbrev pub with_root : Disk → Text → Place → Outcome Error Place
with_root disk [] place = ok place
with_root disk (c ∷ s) (file, _) = absolute disk (c ∷ s) >>= λ root. ok (file, root)

-- os.Getwd without its error.
abbrev pub directory_or_empty : Outcome Text Text → Text
directory_or_empty (ok cwd) = cwd
directory_or_empty (err _) = []

unfoldable pub find_project : Shell → UpFlags → Outcome Error Place
unfolding discover
find_project shell flags = do
  place ← discover shell.disk (directory_or_empty shell.working_directory)
  named ← with_config shell.disk flags.config_path place
  with_root shell.disk flags.project_root named

-- A path as Load takes it: empty for no file.
abbrev pub optional_path : Option Elements → Text
optional_path none = []
optional_path (some file) = path_text file

-- The positional arguments of every command but `up`: a selector, or else the project's root.
unfoldable pub selector_from_args : Shell → List Text → Outcome Error Text
unfolding discover path_text
selector_from_args shell [] = do
  cwd ← decoded shell.working_directory
  place ← discover shell.disk cwd
  ok (path_text place.1)
selector_from_args shell (selector ∷ []) = ok selector
selector_from_args shell (selector ∷ more ∷ rest) =
    err (plain "expected zero or one preview selector")

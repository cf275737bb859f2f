-- ===== src/Cli.antt =====
-- cmd/tailpreview/main.go: what its commands take from the flags, the environment and the project
-- before they call the service. Package flag is a parameter: its values are records.
pub mod Project
pub mod Flags
pub mod Merged
pub mod Program
pub mod Exit
use tailpreview.Base.{ℕ, Bool, Option, List}
use tailpreview.Base.Strings.{Text}
use tailpreview.Base.Outcome.{Outcome}
use tailpreview.Url.{Net}
use tailpreview.Config.Load.{Files}
use tailpreview.Config.Discover.{Disk}

-- os.Getwd, the file system, the configuration files, the parsers, and what `git branch
-- --show-current` and `git rev-parse --short HEAD` print in a directory, if they do not fail.
pub record Shell : Type 0 where
  pub working_directory : Outcome Text Text
  pub disk : Disk
  pub files : Files
  pub net : Net
  pub git_branch : Text → Option Text
  pub git_commit : Text → Option Text

-- The flags of `up`, with the positional arguments.
pub record UpFlags : Type 0 where
  pub routes : List Text
  pub sets : List Text
  pub health : List Text
  pub optional_health : List Text
  pub health_ranges : List Text
  pub verify : List Text
  pub strip_prefixes : List Text
  pub insecure_routes : List Text
  pub insecure_health : List Text
  pub name : Text
  pub config_path : Text
  pub project_root : Text
  pub port : ℕ
  pub ttl : Text
  pub max_age : Text
  pub skip_health : Bool
  pub positional : List Text

-- ===== src/Store.antt =====
-- internal/state/store.go at the level of system calls: the registry file under its path, the lock
-- file, and the temporary file of Save. What a system call and encoding/json answer is a parameter.
pub mod Atomic
pub mod Refines
pub mod Lock
use tailpreview.Base.{
  Bool, true, false, Option, none, some, List, [], ◌∷◌, ◌++◌, ◌==◌, if◌then◌else◌,
}
use tailpreview.Base.Strings.{Text, text_eq, codes}
use tailpreview.Base.Outcome.{Outcome, ok, err}
use tailpreview.Errors.{Error, external, plain, wrapped, unsupported_registry}
use tailpreview.Model.{Registry, registry_version, new_registry}

-- The contents of the files by path.
abbrev pub Files : Type 0
Files = Text → Option Text

abbrev pub put : Text → Option Text → Files → Files
put p c files q = if text_eq q p then c else files q

-- The files, and how they were after each system call before, the newest first.
pub record Disk : Type 0 where
  pub files : Files
  pub past : List Files

abbrev pub Action : Type 0 → Type 0
Action A = Disk → Outcome Error A × Disk

module _ {A B : Type 0} where
  abbrev pub continue : Outcome Error A → (A → Action B) → Action B
  continue (ok a) f d = f a d
  continue (err e) f d = (err e, d)

  infixl 5 ◌>>=◌ ◌>>◌
  abbrev pub ◌>>=◌ : Action A → (A → Action B) → Action B
  ◌>>=◌ m f d = let (r, d') = m d in continue r f d'

  abbrev pub ◌>>◌ : Action A → Action B → Action B
  m >> k = m >>= λ _. k

  -- `defer`
  abbrev pub finally : Action A → Action B → Action A
  finally m cleanup d = let (r, d') = m d in (r, (cleanup d').1)

-- encoding/json: the text of a registry; and what Decode gives for a text, with whether nothing but
-- blanks follows the value.
pub record Codec : Type 0 where
  pub encode : Registry → Outcome Text Text
  pub decode : Text → Outcome Text (Registry × Bool)

-- What the system calls of one Save answer: `none` for nil. A write that fails leaves some text in
-- the file; the last is whether os.Remove removes it.
pub record Answers : Type 0 where
  pub make_directory : Option Text
  pub create : Outcome Text Text
  pub chmod : Option Text
  pub write : Option (Text × Text)
  pub sync : Option Text
  pub close : Option Text
  pub rename : Option Text
  pub removes : Bool

abbrev pub changed : (Files → Files) → Disk → Disk
changed f d = record { files = f d.files; past = f d.files ∷ d.past }

-- A system call that changes the files if it succeeds.
abbrev pub call : Option Text → (Files → Files) → Action (Unit {0})
call none f d = (ok tt, changed f d)
call (some e) f d = (err (external e), d)

abbrev pub same_files : Files → Files
same_files files = files

abbrev pub create_file : Outcome Text Text → Action Text
create_file (ok name) d = (ok name, changed (put name (some [])) d)
create_file (err e) d = (err (external e), d)

abbrev pub write_file : Option (Text × Text) → Text → Text → Action (Unit {0})
write_file none name content d = (ok tt, changed (put name (some content)) d)
write_file (some (e, written)) name content d =
    (err (external e), changed (put name (some written)) d)

abbrev pub rename_file : Text → Text → Files → Files
rename_file from to files = put from none (put to (files from) files)

abbrev pub remove_file : Bool → Text → Action (Unit {0})
remove_file true name d = (ok tt, changed (put name none) d)
remove_file false name d = (ok tt, d)

abbrev pub of_json : {A : Type 0} → Outcome Text A → Action A
of_json (ok a) d = (ok a, d)
of_json (err e) d = (err (external e), d)

module _ (codec : Codec) (path : Text) where
  -- Between the creation of the temporary file and the end of Save.
  abbrev pub replace : Answers → Text → Text → Action (Unit {0})
  replace a content name = do
    call a.chmod same_files
    write_file a.write name content
    call a.sync same_files
    call a.close same_files
    call a.rename (rename_file name path)

  -- Locked.Save
  unfoldable pub save_registry : Answers → Registry → Action (Unit {0})
  save_registry a reg = do
    call a.make_directory same_files
    text ← of_json (codec.encode reg)
    name ← create_file a.create
    finally (replace a (text ++ b'\n' ∷ []) name) (remove_file a.removes name)

  abbrev pub on_version : Registry → Bool → Outcome Error Registry
  on_version reg true = ok reg
  on_version reg false = err (unsupported_registry reg.version)

  abbrev pub on_decoded : Outcome Text (Registry × Bool) → Outcome Error Registry
  on_decoded (err e) = err (wrapped "decode registry" (external e))
  on_decoded (ok (reg, false)) = err (plain "registry contains multiple JSON values")
  on_decoded (ok (reg, true)) = on_version reg (reg.version == registry_version)

  abbrev pub on_contents : Option Text → Outcome Error Registry
  on_contents none = ok new_registry
  on_contents (some text) = on_decoded (codec.decode text)

  abbrev pub on_open : Option Text → Outcome Error Registry → Outcome Error Registry
  on_open none r = r
  on_open (some e) r = err (external e)

  abbrev pub on_file : Option Text → Option Text → Outcome Error Registry
  on_file opening none = on_contents none
  on_file opening (some text) = on_open opening (on_contents (some text))

  -- Locked.Load, where os.Open of a file that exists answers `opening`.
  unfoldable pub load_registry : Option Text → Files → Outcome Error Registry
  load_registry opening files = on_file opening (files path)

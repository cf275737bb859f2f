-- ===== src/Store/Refines.antt =====
-- Save and Load of internal/state/store.go as the answers of a host, on which the service is built.
use tailpreview.Base.{true, ◌≡◌, ◌≢◌, ◌∙◌, ap, refl, Option, none, some, [], ◌∷◌, ◌++◌, ◌==◌}
use tailpreview.Base.Strings.{Text}
use tailpreview.Base.Outcome.{Outcome, ok, err}
use tailpreview.Errors.{Error}
use tailpreview.Model.{Registry, registry_version}
use tailpreview.Host.Calls.{outcome_of, write_file}
use tailpreview.Store.{
  Files, Disk, Codec, Answers, save_registry, load_registry, on_file, on_decoded, on_version,
}
use tailpreview.Store.Atomic.{IsAtomic, save_registry_lem}

-- What encoding/json promises: the text of a registry, with a line end, decodes to it, and no other
-- value follows.
abbrev pub IsLawful : Codec → Type 0
IsLawful codec =
    (reg : Registry) (text : Text)
    → codec.encode reg ≡ ok text
    → codec.decode (text ++ b'\n' ∷ []) ≡ ok (reg, true)

module _ (codec : Codec) (path : Text) where
  -- The files hold this registry, where the file can be opened.
  abbrev pub Holds : Files → Registry → Type 0
  Holds files reg = load_registry codec path none files ≡ ok reg

  -- One answer of a host explains what Save returned and what is loaded after it.
  abbrev pub IsAnswer : Registry → Registry → Outcome Error (Unit {0}) × Disk → Type 0
  IsAnswer old new (r, d) =
      (answer : Option Text) × (r ≡ outcome_of answer) × Holds d.files (write_file answer new old)

  load_same :
      (files more : Files) (reg : Registry)
      → more path ≡ files path
      → Holds files reg
      → Holds more reg
  unfolding load_registry
  load_same files more reg e h = ap (on_file codec path none) e ∙ h

  load_new :
      (files : Files) (reg : Registry) (text : Text)
      → files path ≡ some (text ++ b'\n' ∷ [])
      → codec.decode (text ++ b'\n' ∷ []) ≡ ok (reg, true)
      → reg.version ≡ registry_version
      → Holds files reg
  unfolding load_registry
  load_new files reg text e f v =
      ap (on_file codec path none) e ∙ ap (on_decoded codec path) f ∙ supported
    where
      supported : on_version codec path reg (reg.version == registry_version) ≡ ok reg
      supported = rw v refl

  atomic-IsAnswer :
      (files : Files) (old new : Registry) (r : Outcome Error (Unit {0})) (d : Disk)
      → IsLawful codec
      → new.version ≡ registry_version
      → Holds files old
      → IsAtomic path (files path) codec new (r, d)
      → IsAnswer old new (r, d)
  atomic-IsAnswer files old new (ok t) d lawful v h (text, e, n) =
      (none, refl, load_new d.files new text n.now (lawful new text e) v)
  atomic-IsAnswer files old new (err x) d lawful v h ((t, e), o) =
      (some t, ap err e, load_same files d.files old o.now h)

  -- Save and Load implement the abstract registry file of the service: if the files hold a registry
  -- before Save of another of the supported version, there is an answer of a host, nil or an error,
  -- that Save returned, and after it Load returns the registry that the service takes to be in the
  -- file by this answer.
  pub save_refines :
      IsLawful codec
      → (a : Answers) (old new : Registry) (files : Files)
      → ((name : Text) → a.create ≡ ok name → path ≢ name)
      → new.version ≡ registry_version
      → Holds files old
      → IsAnswer old new (save_registry codec path a new (record { files = files; past = [] }))
  save_refines lawful a old new files fresh v h =
      atomic-IsAnswer files old new _ _ lawful v h (save_registry_lem codec path a new files fresh)

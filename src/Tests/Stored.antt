-- ===== src/Tests/Stored.antt =====
-- The theorems on the registry store at a codec for registries without entries.
use tailpreview.Base.{◌≡◌, ◌≢◌, refl, Bool, true, false, none, some, List, [], ◌∷◌, arith}
use tailpreview.Base.Strings.{Text, codes}
use tailpreview.Base.Outcome.{Outcome, ok, err}
use tailpreview.Model.{Preview, PortReservation, Registry, new_registry}
use tailpreview.Store.{Files, Codec, Answers, save_registry, load_registry}
use tailpreview.Store.Atomic.{IsAtomic, save_registry_lem}
use tailpreview.Store.Refines.{IsLawful, Holds, IsAnswer, save_refines}
use tailpreview.Store.Lock.{LockAnswers, Descriptors, lock, IsBalanced, lock-IsBalanced}

abbrev encode_parts : Registry → List Preview → List (Text × PortReservation) → Outcome Text Text
encode_parts reg [] [] = ok (reg.version ∷ [])
encode_parts reg [] (r ∷ rs) = err (codes "no")
encode_parts reg (p ∷ ps) rs = err (codes "no")

abbrev decode_text : Text → Outcome Text (Registry × Bool)
decode_text [] = err (codes "EOF")
decode_text (v ∷ s) = ok (record { version = v; previews = []; reservations = [] }, true)

abbrev toy_codec : Codec
toy_codec = record {
  encode = λ reg. encode_parts reg reg.previews reg.reservations;
  decode = decode_text;
}

toy_codec-IsLawful : IsLawful toy_codec
toy_codec-IsLawful reg text h = ground arith

-- The disk is full when the file is written.
abbrev full_disk : Answers
full_disk = record {
  make_directory = none;
  create = ok (codes "/s/.registry-1.tmp");
  chmod = none;
  write = some (codes "no space left", codes "{");
  sync = none;
  close = none;
  rename = none;
  removes = true;
}

abbrev registry_path : Text
registry_path = codes "/s/registry.json"

apart : (name : Text) → full_disk.create ≡ ok name → registry_path ≢ name
apart name h e = ground arith

abbrev no_files : Files
no_files p = none

save_registry_lem_example : IsAtomic registry_path none toy_codec new_registry (
    save_registry toy_codec registry_path full_disk new_registry
      (record { files = no_files; past = [] }))
save_registry_lem_example =
    save_registry_lem toy_codec registry_path full_disk new_registry no_files apart

nothing-Holds : Holds toy_codec registry_path no_files new_registry
unfolding load_registry
nothing-Holds = refl

new_version : new_registry.version ≡ 1
unfolding new_registry
new_version = refl

save_refines_example : IsAnswer toy_codec registry_path new_registry new_registry (
    save_registry toy_codec registry_path full_disk new_registry
      (record { files = no_files; past = [] }))
save_refines_example =
    save_refines toy_codec registry_path toy_codec-IsLawful full_disk new_registry new_registry
      no_files apart new_version nothing-Holds

abbrev free : Descriptors
free = record { count = 0; held = false }

abbrev all_well : LockAnswers
all_well = record { make_directory = none; opening = none; flock = none }

lock-IsBalanced_example : IsBalanced free (lock all_well free)
lock-IsBalanced_example = lock-IsBalanced free all_well refl

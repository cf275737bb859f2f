-- ===== src/Store/Atomic.antt =====
-- Save of internal/state/store.go replaces the registry file at once or not at all.
use tailpreview.Base.{
  Bool, true, false, ◌≡◌, ◌≢◌, ◌⊎◌, inl, inr, refl, Option, none, some, [], ◌∷◌, ◌++◌, ◌∙◌,
  Bool-cases,
}
use tailpreview.Base.Lists.{All, All-map}
use tailpreview.Base.Strings.{Text, text_eq, text_eq_iff, text_eq_refl}
use tailpreview.Base.Outcome.{Outcome, ok, err}
use tailpreview.Errors.{Error, external}
use tailpreview.Model.{Registry}
use tailpreview.Store.{
  Files, put, Disk, Action, ◌>>=◌, ◌>>◌, Codec, Answers, changed, call, same_files, create_file,
  write_file, rename_file, remove_file, of_json, replace, save_registry,
}

put_other : (p q : Text) (c : Option Text) (files : Files) → q ≢ p → put p c files q ≡ files q
put_other p q c files h = elim (Bool-cases (text_eq q p)) [
  | inl e ↦ absurd (h ((text_eq_iff q p).0 e))
  | inr e ↦ rw e refl
]

module _ (path : Text) (old : Option Text) where
  -- The registry file is the old one, and it never was another.
  pub record IsOld (d : Disk) : Type 0 where
    pub now : d.files path ≡ old
    pub before : All (λ f. f path ≡ old) d.past

  -- The registry file has the content, and at any time it was the old one or had this content.
  pub record IsNew (content : Text) (d : Disk) : Type 0 where
    pub now : d.files path ≡ some content
    pub before : All (λ f. (f path ≡ old) ⊎ (f path ≡ some content)) d.past

  changed-IsOld :
      (f : Files → Files) (d : Disk) → f d.files path ≡ d.files path → IsOld d → IsOld (changed f d)
  changed-IsOld f d e o = record { now = e ∙ o.now; before = (e ∙ o.now, o.before) }

  put-IsOld :
      (name : Text) (c : Option Text) (d : Disk)
      → path ≢ name
      → IsOld d
      → IsOld (changed (put name c) d)
  put-IsOld name c d h = changed-IsOld (put name c) d (put_other name path c d.files h)

  module _ (content name : Text) (apart : path ≢ name) where
    -- After an error the old file is there, and otherwise the new one.
    abbrev pub Replaced : {A : Type 0} → Outcome Error A × Disk → Type 0
    Replaced (ok _, d) = IsNew content d
    Replaced (err e, d) = ((t : Text) × (e ≡ external t)) × IsOld d

    -- The temporary file has the content.
    record IsReady (d : Disk) : Type 0 where
      is_old : IsOld d
      written : d.files name ≡ some content

    -- A system call that changes no file.
    same-Replaced :
        {B : Type 0} (P : Disk → Type 0) (o : Option Text) (k : Action B) (d : Disk)
        → IsOld d
        → (P d → P (changed same_files d))
        → P d
        → ((d' : Disk) → P d' → Replaced (k d'))
        → Replaced ((call o same_files >> k) d)
    same-Replaced P none k d o f p h = h (changed same_files d) (f p)
    same-Replaced P (some e) k d o f p h = ((e, refl), o)

    same-IsReady : (d : Disk) → IsReady d → IsReady (changed same_files d)
    same-IsReady d r = record {
      is_old = changed-IsOld same_files d refl r.is_old;
      written = r.written;
    }

    put_self : (files : Files) (p : Text) (c : Option Text) → put p c files p ≡ c
    put_self files p c = rw (text_eq_refl p) refl

    rename-Replaced :
        (o : Option Text) (d : Disk) → IsReady d → Replaced (call o (rename_file name path) d)
    rename-Replaced none d r =
        let moved : rename_file name path d.files path ≡ some content =
          put_other name path none (put path (d.files name) d.files) apart
          ∙ put_self d.files path (d.files name)
          ∙ r.written in
        record {
          now = moved;
          before = (
            inr moved,
            All-map _ (λ f. (f path ≡ old) ⊎ (f path ≡ some content)) d.past (λ f e. inl e)
                (r.is_old).before,
          );
        }
    rename-Replaced (some e) d r = ((e, refl), r.is_old)

    write-Replaced :
        {B : Type 0} (o : Option (Text × Text)) (k : Action B) (d : Disk)
        → IsOld d
        → ((d' : Disk) → IsReady d' → Replaced (k d'))
        → Replaced ((write_file o name content >> k) d)
    write-Replaced none k d o h = h _ (record {
      is_old = put-IsOld name (some content) d apart o;
      written = put_self d.files name (some content);
    })
    write-Replaced (some (e, t)) k d o h = ((e, refl), put-IsOld name (some t) d apart o)

    replace-Replaced :
        (codec : Codec) (a : Answers) (d : Disk)
        → IsOld d
        → Replaced (replace codec path a content name d)
    replace-Replaced codec a d o =
        same-Replaced IsOld a.chmod _ d o (changed-IsOld same_files d refl) o λ d1 o1.
          write-Replaced a.write _ d1 o1 λ d2 r2.
            same-Replaced IsReady a.sync _ d2 r2.is_old (same-IsReady d2) r2 λ d3 r3.
              same-Replaced IsReady a.close _ d3 r3.is_old (same-IsReady d3) r3
                λ d4 r4. rename-Replaced a.rename d4 r4

    -- Removing the temporary file touches neither.
    remove-Replaced :
        (b : Bool) (r : Outcome Error (Unit {0})) (d : Disk)
        → Replaced (r, d)
        → Replaced (r, (remove_file b name d).1)
    remove-Replaced false r d h = h
    remove-Replaced true (err e) d h = (h.0, put-IsOld name none d apart h.1)
    remove-Replaced true (ok t) d h =
        let kept : put name none d.files path ≡ some content =
          put_other name path none d.files apart ∙ h.now in
        record { now = kept; before = (inr kept, h.before) }

  module _ (codec : Codec) (reg : Registry) where
    -- Save returned nil and the registry file has the new content, or it returned an error and the
    -- file is the old one; at any time before it was one of the two.
    abbrev pub IsAtomic : {A : Type 0} → Outcome Error A × Disk → Type 0
    IsAtomic (ok _, d) = (text : Text) × (codec.encode reg ≡ ok text) × IsNew (text ++ b'\n' ∷ []) d
    IsAtomic (err e, d) = ((t : Text) × (e ≡ external t)) × IsOld d

    Replaced-IsAtomic :
        {A : Type 0} (text name : Text) (apart : path ≢ name) (r : Outcome Error A) (d : Disk)
        → codec.encode reg ≡ ok text
        → Replaced (text ++ b'\n' ∷ []) name apart (r, d)
        → IsAtomic (r, d)
    Replaced-IsAtomic text name apart (ok _) d e h = (text, e, h)
    Replaced-IsAtomic text name apart (err _) d e h = h

    directory-IsAtomic :
        {B : Type 0} (o : Option Text) (k : Action B) (d : Disk)
        → IsOld d
        → ((d' : Disk) → IsOld d' → IsAtomic (k d'))
        → IsAtomic ((call o same_files >> k) d)
    directory-IsAtomic none k d o h = h _ (changed-IsOld same_files d refl o)
    directory-IsAtomic (some e) k d o h = ((e, refl), o)

    json-IsAtomic :
        {B : Type 0} (r : Outcome Text Text) (k : Text → Action B) (d : Disk)
        → IsOld d
        → ((text : Text) → r ≡ ok text → IsAtomic (k text d))
        → IsAtomic ((of_json r >>= k) d)
    json-IsAtomic (ok text) k d o h = h text refl
    json-IsAtomic (err e) k d o h = ((e, refl), o)

    create-IsAtomic :
        {B : Type 0} (r : Outcome Text Text) (k : Text → Action B) (d : Disk)
        → ((name : Text) → r ≡ ok name → path ≢ name)
        → IsOld d
        → ((name : Text) → path ≢ name → (d' : Disk) → IsOld d' → IsAtomic (k name d'))
        → IsAtomic ((create_file r >>= k) d)
    create-IsAtomic (ok name) k d fresh o h =
        h name (fresh name refl) _ (put-IsOld name (some []) d (fresh name refl) o)
    create-IsAtomic (err e) k d fresh o h = ((e, refl), o)

    save_registry-IsAtomic :
        (a : Answers) (d : Disk)
        → ((name : Text) → a.create ≡ ok name → path ≢ name)
        → IsOld d
        → IsAtomic (save_registry codec path a reg d)
    unfolding save_registry
    save_registry-IsAtomic a d fresh o = directory-IsAtomic a.make_directory _ d o λ d1 o1.
        json-IsAtomic (codec.encode reg) _ d1 o1 λ text e.
          create-IsAtomic a.create _ d1 fresh o1 λ name apart d2 o2.
            Replaced-IsAtomic text name apart _ _ e (
              remove-Replaced (text ++ b'\n' ∷ []) name apart a.removes _ _
                (replace-Replaced (text ++ b'\n' ∷ []) name apart codec a d2 o2))

-- If the name of the temporary file is not that of the registry file, then whatever the system calls
-- of Save answer: if Save returns nil, the registry file has the new content, and if it returns an
-- error, the file is as before; and after each system call the file was one of the two.
pub save_registry_lem :
    (codec : Codec) (path : Text) (a : Answers) (reg : Registry) (files : Files)
    → ((name : Text) → a.create ≡ ok name → path ≢ name)
    → IsAtomic path
        (files path)
        codec
        reg
        (save_registry codec path a reg (record { files = files; past = [] }))
save_registry_lem codec path a reg files fresh =
    save_registry-IsAtomic path (files path) codec reg a _ fresh
      (record { now = refl; before = tt })

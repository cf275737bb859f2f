-- ===== src/Service/Valid/Lists.antt =====
-- Uniqueness of identifiers and ports under filtering, appending, replacing and sorting.
use tailpreview.Base.{ℕ, ◌≡◌, refl, Bool, Option, none, some, List, [], ◌∷◌, ◌++◌, map, arith}
use tailpreview.Base.Lists.{All, filter, All-filter, All-map, All-append}
use tailpreview.Base.Strings.{text_eq_iff}
use tailpreview.Model.{Preview}
use tailpreview.Service.Select.{Found, find_by, insert_by, sort_by}
use tailpreview.Service.Valid.{Apart, Unique}

pub Apart-sym : (p q : Preview) → Apart p q → Apart q p
Apart-sym p q h = ground (arith, text_eq_iff p.id q.id, text_eq_iff q.id p.id)

pub Unique-filter : (t : Preview → Bool) (ps : List Preview) → Unique ps → Unique (filter t ps)
Unique-filter t [] u = tt
Unique-filter t (p ∷ ps) u = ground (arith, Unique-filter t ps u.1, All-filter (Apart p) t ps u.0)

pub Unique-append :
    (ps : List Preview) (p : Preview) → Unique ps → All (λ q. Apart q p) ps → Unique (ps ++ p ∷ [])
Unique-append [] p u h = (tt, tt)
Unique-append (q ∷ ps) p u h =
    (All-append (Apart q) ps (p ∷ []) u.0 (h.0, tt), Unique-append ps p u.1 h.1)

-- What identifies a preview to the invariant.
abbrev pub SameKeys : Preview → Preview → Type 0
SameKeys p q =
    (p.id ≡ q.id) × (p.external_port ≡ q.external_port) × (p.gateway_port ≡ q.gateway_port)

pub Apart-keys : (p p' q q' : Preview) → SameKeys p p' → SameKeys q q' → Apart p q → Apart p' q'
Apart-keys p p' q q' e f h = ground arith

module _ (p p' : Preview) (e : SameKeys p p') (qs : List Preview) where
  pub Unique-replace : (ps : List Preview) → Unique (ps ++ p ∷ qs) → Unique (ps ++ p' ∷ qs)
  Unique-replace [] u =
      (All-map (Apart p) (Apart p') qs (λ q. Apart-keys p p' q q e (refl, refl, refl)) u.0, u.1)
  Unique-replace (q ∷ ps) u = (replaced ps u.0, Unique-replace ps u.1)
    where
      replaced : (xs : List Preview) → All (Apart q) (xs ++ p ∷ qs) → All (Apart q) (xs ++ p' ∷ qs)
      replaced [] h = (Apart-keys q q p p' (refl, refl, refl) e h.0, h.1)
      replaced (x ∷ xs) h = (h.0, replaced xs h.1)

module _ (P : Preview → Type 0) (p : Preview) (qs : List Preview) where
  pub All-drop : (ps : List Preview) → All P (ps ++ p ∷ qs) → All P (ps ++ qs)
  All-drop [] h = h.1
  All-drop (x ∷ ps) h = (h.0, All-drop ps h.1)

  pub All-swap :
      (p' : Preview) (ps : List Preview) → P p' → All P (ps ++ p ∷ qs) → All P (ps ++ p' ∷ qs)
  All-swap p' [] k h = (k, h.1)
  All-swap p' (x ∷ ps) k h = (h.0, All-swap p' ps k h.1)

  pub All-middle : (ps : List Preview) → All P (ps ++ p ∷ qs) → P p
  All-middle [] h = h.0
  All-middle (x ∷ ps) h = All-middle ps h.1

pub Unique-drop : (p : Preview) (qs ps : List Preview) → Unique (ps ++ p ∷ qs) → Unique (ps ++ qs)
Unique-drop p qs [] u = u.1
Unique-drop p qs (x ∷ ps) u = (All-drop (Apart x) p qs ps u.0, Unique-drop p qs ps u.1)

-- A function that keeps the keys keeps uniqueness.
module _ (f : Preview → Preview) (same : (p : Preview) → SameKeys p (f p)) where
  All-mapped : (p : Preview) (ps : List Preview) → All (Apart p) ps → All (Apart (f p)) (map f ps)
  All-mapped p [] h = tt
  All-mapped p (q ∷ ps) h = (Apart-keys p (f p) q (f q) (same p) (same q) h.0, All-mapped p ps h.1)

  pub Unique-map : (ps : List Preview) → Unique ps → Unique (map f ps)
  Unique-map [] u = tt
  Unique-map (p ∷ ps) u = (All-mapped p ps u.0, Unique-map ps u.1)

  pub All-map_keys :
      (P : Preview → Type 0)
      → ((p q : Preview) → SameKeys p q → P p → P q)
      → (ps : List Preview) → All P ps
      → All P (map f ps)
  All-map_keys P k [] h = tt
  All-map_keys P k (p ∷ ps) h = (k p (f p) (same p) h.0, All-map_keys P k ps h.1)

module _ (key : Preview → ℕ) where
  pub All-insert_by :
      (P : Preview → Type 0) (p : Preview) (ps : List Preview)
      → P p
      → All P ps
      → All P (insert_by key p ps)
  unfolding insert_by
  All-insert_by P p [] k h = (k, tt)
  All-insert_by P p (q ∷ qs) k h = ground (arith, All-insert_by P p qs k h.1)

  pub All-sort_by : (P : Preview → Type 0) (ps : List Preview) → All P ps → All P (sort_by key ps)
  unfolding sort_by
  All-sort_by P [] h = tt
  All-sort_by P (p ∷ ps) h = All-insert_by P p _ h.0 (All-sort_by P ps h.1)

  Unique-insert_by :
      (p : Preview) (ps : List Preview) → All (Apart p) ps → Unique ps → Unique (insert_by key p ps)
  unfolding insert_by
  Unique-insert_by p [] h u = (tt, tt)
  Unique-insert_by p (q ∷ qs) h u =
      ground
        (arith, Unique-insert_by p qs h.1 u.1, All-insert_by (Apart q) p qs (Apart-sym p q h.0) u.0)

  pub Unique-sort_by : (ps : List Preview) → Unique ps → Unique (sort_by key ps)
  unfolding sort_by
  Unique-sort_by [] u = tt
  Unique-sort_by (p ∷ ps) u =
      Unique-insert_by p _ (All-sort_by (Apart p) ps u.0) (Unique-sort_by ps u.1)

-- A search splits the list.
abbrev pub Splits : List Preview → Option Found → Type 0
Splits ps none = Unit
Splits ps (some f) = ps ≡ f.before ++ f.preview ∷ f.after

pub find_by-Splits : (t : Preview → Bool) (ps : List Preview) → Splits ps (find_by t ps)
unfolding find_by
find_by-Splits t [] = tt
find_by-Splits t (p ∷ ps) = ground (arith, find_by-Splits t ps)

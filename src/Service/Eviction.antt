-- ===== src/Service/Eviction.antt =====
-- sortPreviews, and the preview that gives way for a new one.
use tailpreview.Base.{
  ℕ, ◌≤◌, ◌≡◌, refl, false, List, [], ◌∷◌, arith, ltb, Option, none, some, subst, inl, inr,
  Bool-cases,
}
use tailpreview.Base.Lists.{All, Some, All-filter, All-map, any}
use mathlib.Core.List.{Perm}
use mathlib.Core.List.Perm
use tailpreview.Base.Strings.{Text}
use tailpreview.Base.Outcome.{Outcome, ok, err, ok_injective}
use tailpreview.Model.{Route, Preview}
use tailpreview.Url.{Url}
use tailpreview.Host.{Service, World}
use tailpreview.Host.Calls.{active_requests}
use tailpreview.Service.Select.{
  insert_by, sort_by, by_use, by_port, sort_previews, preview_has_active_requests, is_active_host,
  is_busy,
}
use tailpreview.Service.Port.{Choice, eviction_candidates, victim_of, evict, ports_of}
use tailpreview.Service.Valid.Lists.{All-insert_by, All-sort_by}

module _ (key : Preview → ℕ) where
  -- Each key is at most the keys that follow.
  abbrev pub IsSorted : List Preview → Type 0
  IsSorted [] = Unit
  IsSorted (p ∷ ps) = All (λ q. key p ≤ key q) ps × IsSorted ps

  All-raise :
      (a b : ℕ) (ps : List Preview) → a ≤ b → All (λ q. b ≤ key q) ps → All (λ q. a ≤ key q) ps
  All-raise a b [] h k = tt
  All-raise a b (p ∷ ps) h k = (omega (arith, h, k.0), All-raise a b ps h k.1)

  insert_by-IsSorted :
      (p : Preview) (ps : List Preview) → IsSorted ps → IsSorted (insert_by key p ps)
  unfolding insert_by
  insert_by-IsSorted p [] h = (tt, tt)
  insert_by-IsSorted p (q ∷ qs) h = elim (Bool-cases (ltb (key q) (key p))) [
    | inl e ↦ rw e (
      All-insert_by key (λ r. key q ≤ key r) p qs (ground arith) h.0,
      insert_by-IsSorted p qs h.1,
    )
    | inr e ↦
        let le : key p ≤ key q = ground arith in rw e ((le, All-raise (key p) (key q) qs le h.0), h)
  ]

  pub sort_by-IsSorted : (ps : List Preview) → IsSorted (sort_by key ps)
  unfolding sort_by
  sort_by-IsSorted [] = tt
  sort_by-IsSorted (p ∷ ps) = insert_by-IsSorted p _ (sort_by-IsSorted ps)

  insert_by-Perm : (p : Preview) (ps : List Preview) → Perm (insert_by key p ps) (p ∷ ps)
  unfolding insert_by
  insert_by-Perm p [] = Perm.rfl
  insert_by-Perm p (q ∷ qs) = elim (Bool-cases (ltb (key q) (key p))) [
    | inl e ↦ rw e (Perm.trans (Perm.cons q (insert_by-Perm p qs)) (Perm.swap p q qs))
    | inr e ↦ rw e Perm.rfl
  ]

  pub sort_by-Perm : (ps : List Preview) → Perm (sort_by key ps) ps
  unfolding sort_by
  sort_by-Perm [] = Perm.rfl
  sort_by-Perm (p ∷ ps) =
      Perm.trans (insert_by-Perm p (sort_by key ps)) (Perm.cons p (sort_by-Perm ps))

  All-of_insert_by :
      (P : Preview → Type 0) (p : Preview) (ps : List Preview)
      → All P (insert_by key p ps)
      → P p × All P ps
  unfolding insert_by
  All-of_insert_by P p [] h = h
  All-of_insert_by P p (q ∷ qs) h = ground (arith, All-of_insert_by P p qs)

  pub All-of_sort_by :
      (P : Preview → Type 0) (ps : List Preview) → All P (sort_by key ps) → All P ps
  unfolding sort_by
  All-of_sort_by P [] h = tt
  All-of_sort_by P (p ∷ ps) h =
      let (a, b) = All-of_insert_by P p (sort_by key ps) h in (a, All-of_sort_by P ps b)

-- Sorting lists the same previews, by their HTTPS ports.
pub sort_previews_lem :
    (ps : List Preview) → Perm (sort_previews ps) ps × IsSorted by_port (sort_previews ps)
unfolding sort_previews
sort_previews_lem ps = (sort_by-Perm by_port ps, sort_by-IsSorted by_port ps)

-- The request counts that a call in this world reads: none where Caddy does not answer.
abbrev pub active_now : Service → World → List (Text × ℕ)
active_now s w = elim (s.host.active_requests w.history) [ ok m ↦ m | err _ ↦ [] ]

-- A preview that may give way.
abbrev pub MayGo : Service → World → Preview → Type 0
MayGo s w p = (p.pinned ≡ false) × (preview_has_active_requests s.net p (active_now s w) ≡ false)

module _ (s : Service) (w : World) where
  All-MayGo : (ps : List Preview) → All (MayGo s w) (eviction_candidates s (active_now s w) ps)
  unfolding eviction_candidates
  All-MayGo [] = tt
  All-MayGo (p ∷ ps) = ground (arith, All-MayGo ps)

  -- What holds for every candidate holds for every preview that may go.
  All-of_candidates :
      (P : Preview → Type 0) (ps : List Preview)
      → All P (eviction_candidates s (active_now s w) ps)
      → All (λ q. MayGo s w q → P q) ps
  unfolding eviction_candidates
  All-of_candidates P [] h = tt
  All-of_candidates P (p ∷ ps) h = ground (arith, All-of_candidates P ps)

  All-candidates :
      (P : Preview → Type 0) (ps : List Preview)
      → All P ps
      → All P (eviction_candidates s (active_now s w) ps)
  unfolding eviction_candidates
  All-candidates P ps h = All-filter P _ ps h

  All-self : (ps : List Preview) → All (λ q. Some (λ r. r ≡ q) ps) ps
  All-self [] = tt
  All-self (p ∷ ps) = (inl refl, All-map _ _ ps (λ q m. inr m) (All-self ps))

  -- Not pinned, and without a request by the counts that Caddy answers; where the counts cannot be
  -- read, the preview is taken to be idle.
  abbrev pub SeemsIdle : Preview → Type 0
  SeemsIdle p =
      (p.pinned ≡ false)
      × ((counts : List (Text × ℕ))
          → s.host.active_requests w.history ≡ ok counts
          → preview_has_active_requests s.net p counts ≡ false)

  idle_without_counts : (p : Preview) → preview_has_active_requests s.net p [] ≡ false
  unfolding preview_has_active_requests is_active_host
  idle_without_counts p = by_routes p.routes
    where
      quiet : (o : Option Url) → is_busy [] o ≡ false
      quiet none = refl
      quiet (some u) = refl

      by_routes : (rs : List Route) → any (λ r. is_busy [] (s.net.parse r.upstream)) rs ≡ false
      by_routes [] = refl
      by_routes (r ∷ rs) = rw (quiet (s.net.parse r.upstream)) (by_routes rs)

  MayGo-SeemsIdle : (p : Preview) → MayGo s w p → SeemsIdle p
  MayGo-SeemsIdle p (a, b) =
      (a, λ counts e. by_answer (s.host.active_requests w.history) counts e b)
    where
      by_answer :
          (o : Outcome Text (List (Text × ℕ))) (counts : List (Text × ℕ))
          → o ≡ ok counts
          → preview_has_active_requests s.net p (elim o [ ok m ↦ m | err _ ↦ [] ]) ≡ false
          → preview_has_active_requests s.net p counts ≡ false
      by_answer (ok m) counts e h =
          subst (λ x. preview_has_active_requests s.net p x ≡ false) (ok_injective e) h
      by_answer (err x) counts e h = absurd (cc e)

  SeemsIdle-MayGo : (p : Preview) → SeemsIdle p → MayGo s w p
  SeemsIdle-MayGo p (a, b) = (a, by_answer (s.host.active_requests w.history) b)
    where
      by_answer :
          (o : Outcome Text (List (Text × ℕ)))
          → ((counts : List (Text × ℕ))
              → o ≡ ok counts
              → preview_has_active_requests s.net p counts ≡ false)
          → preview_has_active_requests s.net p (elim o [ ok m ↦ m | err _ ↦ [] ]) ≡ false
      by_answer (ok m) k = k m refl
      by_answer (err x) k = idle_without_counts p

  -- The choice is that of a registered preview that seems idle, used no later than any other that does.
  abbrev pub IsVictim : List Preview → Choice → Type 0
  IsVictim ps c =
      (v : Preview) × (c ≡ ports_of v (some v))
      × Some (λ r. r ≡ v) ps
      × SeemsIdle v
      × All (λ q. SeemsIdle q → v.last_used_at ≤ q.last_used_at) ps

  victim_of-IsVictim :
      (ps vs : List Preview) (c : Choice)
      → All (λ q. Some (λ r. r ≡ q) ps) vs
      → All (MayGo s w) vs
      → ((v : Preview)
          → All (λ q. v.last_used_at ≤ q.last_used_at) vs
          → All (λ q. MayGo s w q → v.last_used_at ≤ q.last_used_at) ps)
      → IsSorted by_use vs
      → victim_of vs ≡ ok c
      → IsVictim ps c
  victim_of-IsVictim ps [] c m g back o e = absurd (cc e)
  victim_of-IsVictim ps (v ∷ vs) c m g back o e = (
    v,
    cc,
    m.0,
    MayGo-SeemsIdle v g.0,
    All-map _ _ ps (λ q k i. k (SeemsIdle-MayGo q i)) (back v (omega arith, o.0)),
  )

  -- The preview that is evicted is registered, not pinned, and without a request by the counts that
  -- Caddy answered, and no preview of which that holds too was used longer ago; where ActiveRequests
  -- returned an error, every preview that is not pinned counts as one without requests. The condition
  -- is that a preview was evicted at all.
  pub evict-IsVictim : (ps : List Preview) (c : Choice) → (evict s ps w).0 ≡ ok c → IsVictim ps c
  unfolding evict active_requests
  evict-IsVictim ps c e =
      let candidates : List Preview = eviction_candidates s (active_now s w) ps in
      let self : All (λ q. Some (λ r. r ≡ q) ps) candidates = All-candidates _ ps (All-self ps) in
      victim_of-IsVictim ps (sort_by by_use candidates) c (All-sort_by by_use _ candidates self)
        (All-sort_by by_use (MayGo s w) candidates (All-MayGo ps))
        (λ v k. All-of_candidates _ ps (All-of_sort_by by_use _ candidates k))
        (sort_by-IsSorted by_use candidates) e

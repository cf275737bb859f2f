-- ===== src/Service/Swept.antt =====
-- What the loop of GC collects.
use mathlib.Core.List.{Perm, perm_middle, append_assoc, append-nil}
use mathlib.Core.List.Perm
use tailpreview.Base.{
  ℕ, ◌+◌, ◌≤◌, ◌≡◌, ◌↔◌, ◌⊎◌, refl, ap, subst, true, false, Option, none, some, List, [], ◌∷◌, ◌++◌,
  map, arith, inl, inr, Bool-cases,
}
use tailpreview.Base.Lists.{All, All-append}
use tailpreview.Base.Strings.{Text}
use tailpreview.Base.Outcome.{ok}
use tailpreview.Model.{Preview}
use tailpreview.Host.{Service, World}
use tailpreview.Host.Calls.{check_once}
use tailpreview.Service.Select.{preview_has_active_requests}
use tailpreview.Service.Usage.{unhealthy_grace}
use tailpreview.Service.Gc.{
  Sweep, sweep, sweep_one, mark_health, is_expired, is_unhealthy_expired, unhealthy_for, is_garbage,
}

abbrev pub ids : List Preview → List Text
ids ps = map (λ p. p.id) ps

module _ (s : Service) (time : ℕ) (active : List (Text × ℕ)) where
  -- The preview was unhealthy for thirty minutes.
  abbrev pub LongUnhealthy : Option ℕ → Type 0
  LongUnhealthy none = ⊥
  LongUnhealthy (some t) = t + unhealthy_grace ≤ time

  -- Not pinned, no request, and idle for too long, too old or unhealthy for too long.
  abbrev pub IsGarbage : Preview → Type 0
  IsGarbage p =
      (p.pinned ≡ false)
      × (preview_has_active_requests s.net p active ≡ false)
      × ((p.last_used_at + p.idle_ttl ≤ time)
          ⊎ ((p.created_at + p.max_age ≤ time) ⊎ LongUnhealthy p.unhealthy_since))

  unhealthy_for_iff : (o : Option ℕ) → (unhealthy_for time o ≡ true) ↔ LongUnhealthy o
  unhealthy_for_iff none = (λ h. absurd (cc h), λ h. absurd h)
  unhealthy_for_iff (some t) = ground arith

  is_garbage_iff : (p : Preview) → (is_garbage s time active p ≡ true) ↔ IsGarbage p
  unfolding is_garbage is_expired is_unhealthy_expired
  is_garbage_iff p =
      let u = unhealthy_for_iff p.unhealthy_since in
      (λ h. ground (arith, u), λ h. ground (arith, u))

  not_garbage : (p : Preview) → is_garbage s time active p ≡ false → IsGarbage p → ⊥
  not_garbage p e g = cc (e, (is_garbage_iff p).1 g)

  -- What the loop has collected, of the previews whose identifiers are given.
  pub record IsSwept (sw : Sweep) (all : List Text) : Type 0 where
    pub removed_garbage : All IsGarbage sw.removed
    pub kept_in_use : All (λ p. IsGarbage p → ⊥) sw.kept
    pub all_there : Perm (ids sw.kept ++ ids sw.removed) all

  map_append : (ps qs : List Preview) → ids (ps ++ qs) ≡ ids ps ++ ids qs
  map_append [] qs = refl
  map_append (p ∷ ps) qs = ap (◌∷◌ p.id) (map_append ps qs)

  sweep_one-IsSwept :
      (p : Preview) (acc : Sweep) (all : List Text)
      → IsSwept acc all
      → IsSwept (sweep_one s time active p acc) (p.id ∷ all)
  unfolding sweep_one
  sweep_one-IsSwept p acc all v = elim (Bool-cases (is_garbage s time active p)) [
    | inl e ↦ rw e (record {
      removed_garbage =
          All-append IsGarbage acc.removed (p ∷ []) v.removed_garbage ((is_garbage_iff p).0 e, tt);
      kept_in_use = v.kept_in_use;
      all_there = rw (map_append acc.removed (p ∷ [])) (
          subst (λ l. Perm l (p.id ∷ all))
            (append_assoc (ids acc.kept) (ids acc.removed) (p.id ∷ []))
            (Perm.trans (perm_middle (ids acc.kept ++ ids acc.removed) [])
              (Perm.cons p.id (rw (append-nil (ids acc.kept ++ ids acc.removed)) v.all_there))));
    })
    | inr e ↦ rw e (record {
      removed_garbage = v.removed_garbage;
      kept_in_use =
          All-append (λ q. IsGarbage q → ⊥) acc.kept (p ∷ []) v.kept_in_use (not_garbage p e, tt);
      all_there = rw (map_append acc.kept (p ∷ [])) (
          rw (append_assoc (ids acc.kept) (p.id ∷ []) (ids acc.removed)) (
            Perm.trans (perm_middle (ids acc.kept) (ids acc.removed))
              (Perm.cons p.id v.all_there)));
    })
  ]

  weaken : (sw : Sweep) (l l' : List Text) → Perm l l' → IsSwept sw l → IsSwept sw l'
  weaken sw l l' q v = record {
    removed_garbage = v.removed_garbage;
    kept_in_use = v.kept_in_use;
    all_there = Perm.trans v.all_there q;
  }

  mark_health-id : (e : Option Text) (p : Preview) → (mark_health time e p).id ≡ p.id
  unfolding mark_health
  mark_health-id none p = refl
  mark_health-id (some e) p = refl

  pub sweep-IsSwept :
      (ps : List Preview) (acc : Sweep) (all : List Text) (w : World)
      → IsSwept acc all
      → (sw : Sweep) × ((sweep s time active ps acc w).0 ≡ ok sw) × IsSwept sw (ids ps ++ all)
  unfolding sweep check_once
  sweep-IsSwept [] acc all w v = (acc, refl, v)
  sweep-IsSwept (p ∷ ps) acc all w v =
      let e = s.host.check_once w.history p.health in
      let marked = mark_health time e p in
      let v1 =
        subst (λ i. IsSwept (sweep_one s time active marked acc) (i ∷ all)) (mark_health-id e p)
          (sweep_one-IsSwept marked acc all v) in
      let (sw, r, v2) = sweep-IsSwept ps (sweep_one s time active marked acc) (p.id ∷ all) _ v1 in
      (sw, r, weaken sw _ _ (perm_middle (ids ps) all) v2)

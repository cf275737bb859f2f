-- ===== src/Service/Valid/Updates.antt =====
-- The pure updates of the registry keep it valid.
use tailpreview.Base.{ℕ, ◌≡◌, refl, false, Option, none, some, List, [], ◌∷◌, arith}
use tailpreview.Base.Lists.{All, All-filter, All-map, All-append, All-zip}
use tailpreview.Base.Strings.{Text, text_eq, text_eq_refl}
use tailpreview.Model.{Preview, Registry, PortReservation, VerificationReport}
use tailpreview.Host.{Service}
use tailpreview.Service.Select.{without_id, sort_previews, by_port}
use tailpreview.Service.Usage.{used_at, refresh_usage, prune_reservations, reserve}
use tailpreview.Service.Up.{
  Plan, without_evicted, desired_previews, saved_registry, verified_preview,
}
use tailpreview.Service.Valid.{Apart, Unique, InPool, Placed, Reserved, IsValid}
use tailpreview.Service.Valid.Lists.{
  SameKeys, Unique-filter, Unique-append, Unique-map, All-map_keys, All-sort_by, Unique-sort_by,
}
use tailpreview.Service.Valid.Ports.{All-without_id, without_id-ne}
use tailpreview.Service.Valid.Choice.{Chosen}

pub reserve-Reserved :
    (s : Service) (id : Text) (r : PortReservation) (m : List (Text × PortReservation))
    → InPool s r.port
    → All (Reserved s) m
    → All (Reserved s) (reserve id r m)
unfolding reserve
reserve-Reserved s id r [] h k = (h, tt)
reserve-Reserved s id r (e ∷ m) h k = ground (arith, reserve-Reserved s id r m h k.1)

used_at-SameKeys : (now : ℕ) (t : Option ℕ) (p : Preview) → SameKeys p (used_at now t p)
unfolding used_at
used_at-SameKeys now none p = (refl, refl, refl)
used_at-SameKeys now (some t) p = ground arith

pub Placed-keys : (s : Service) (p q : Preview) → SameKeys p q → Placed s p → Placed s q
Placed-keys s p q e h = ground arith

module _ (s : Service) where
  pub refresh_usage-IsValid :
      (log_time : Text → Option ℕ) (now : ℕ) (reg : Registry)
      → IsValid s reg
      → IsValid s (refresh_usage log_time now reg)
  unfolding refresh_usage
  refresh_usage-IsValid log_time now reg v = record {
    version_supported = v.version_supported;
    unique = Unique-map _ (λ p. used_at-SameKeys now (log_time p.id) p) reg.previews v.unique;
    placed =
        All-map_keys _ (λ p. used_at-SameKeys now (log_time p.id) p) (Placed s) (Placed-keys s)
          reg.previews v.placed;
    reserved = v.reserved;
  }

  pub prune_reservations-IsValid :
      (now : ℕ) (reg : Registry) → IsValid s reg → IsValid s (prune_reservations now reg)
  unfolding prune_reservations
  prune_reservations-IsValid now reg v = record {
    version_supported = v.version_supported;
    unique = v.unique;
    placed = v.placed;
    reserved = All-filter (Reserved s) _ reg.reservations v.reserved;
  }

-- What a plan has to satisfy.
pub record IsSound (s : Service) (plan : Plan) : Type 0 where
  pub registry_valid : IsValid s plan.registry
  pub chosen : Chosen s plan.registry.previews plan.preview.id plan.choice
  pub port_matches : plan.preview.external_port ≡ plan.choice.port
  pub gateway_matches : plan.preview.gateway_port ≡ plan.choice.gateway

module _ (s : Service) (plan : Plan) (v : IsSound s plan) where
  open plan use {registry, preview, choice}

  staying : List Preview
  staying = without_evicted (without_id registry.previews preview.id) choice.evicted

  without_evicted-All :
      (P : Preview → Type 0) (ps : List Preview) (e : Option Preview)
      → All P ps
      → All P (without_evicted ps e)
  unfolding without_id
  without_evicted-All P ps none h = h
  without_evicted-All P ps (some x) h = All-filter P _ ps h

  without_evicted-Unique :
      (ps : List Preview) (e : Option Preview) → Unique ps → Unique (without_evicted ps e)
  unfolding without_id
  without_evicted-Unique ps none u = u
  without_evicted-Unique ps (some x) u = Unique-filter _ ps u

  staying-Unique : Unique staying
  unfolding staying without_id
  staying-Unique =
      without_evicted-Unique _ choice.evicted (Unique-filter _ _ v.registry_valid.unique)

  staying-Placed : All (Placed s) staying
  unfolding staying without_id
  staying-Placed =
      without_evicted-All (Placed s) _ choice.evicted (All-filter _ _ _ v.registry_valid.placed)

  staying-Apart : All (λ q. Apart q preview) staying
  unfolding staying
  staying-Apart =
      All-map _ _ _ (λ q h. (h.0, λ e. h.1 (ground arith)))
        (All-zip _ _ _
          (without_evicted-All _ _ choice.evicted (without_id-ne preview.id registry.previews))
          v.chosen.nobody_has_it)

  pub preview-Placed : Placed s preview
  preview-Placed = ground (arith, v.chosen.in_pool, v.chosen.gateway_matches, v.port_matches)

  desired-Unique : Unique (desired_previews plan)
  unfolding desired_previews sort_previews staying
  desired-Unique = Unique-sort_by by_port _ (Unique-append _ preview staying-Unique staying-Apart)

  desired-Placed : All (Placed s) (desired_previews plan)
  unfolding desired_previews sort_previews staying
  desired-Placed = All-sort_by by_port _ _ (All-append _ _ _ staying-Placed (preview-Placed, tt))

  -- The port of the new preview is its own.
  desired-Owns :
      All (λ q. text_eq q.id preview.id ≡ false → Apart q preview) (desired_previews plan)
  unfolding desired_previews sort_previews staying
  desired-Owns = All-sort_by by_port _ _ (
      All-append _ _ _ (All-map _ _ _ (λ q h _. h) staying-Apart)
        ((λ e. absurd (cc (e, text_eq_refl preview.id))), tt))

  pub saved_registry-IsValid :
      (report : VerificationReport) → IsValid s (saved_registry plan report)
  unfolding saved_registry sort_previews without_id
  saved_registry-IsValid report = record {
    version_supported = v.registry_valid.version_supported;
    unique = Unique-sort_by by_port _ (
        Unique-append _ (verified_preview plan report) (Unique-filter _ _ desired-Unique)
          (unfold without_id in All-without_id _ preview.id _ desired-Owns));
    placed =
        All-sort_by by_port _ _
          (All-append _ _ _ (All-filter _ _ _ desired-Placed) (preview-Placed, tt));
    reserved =
        reserve-Reserved s preview.id _ registry.reservations v.chosen.in_pool
          v.registry_valid.reserved;
  }

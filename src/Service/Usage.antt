-- ===== src/Service/Usage.antt =====
-- refreshUsage and pruneReservations, and the map of reservations.
use tailpreview.Base.{
  ℕ, ◌+◌, ◌*◌, Bool, not, ◌&&◌, Option, none, some, List, [], ◌∷◌, map, ltb, leb, if◌then◌else◌,
}
use tailpreview.Base.Lists.{filter}
use tailpreview.Base.Strings.{Text, text_eq}
use tailpreview.Model.{Preview, PortReservation, Registry}
use tailpreview.Config.{hour}

-- time.Sub compared with a duration: `now.Sub(t) >= d` and `now.Sub(t) > d`.
abbrev pub elapsed : ℕ → ℕ → ℕ → Bool
elapsed now t d = leb (t + d) now

abbrev pub elapsed_more : ℕ → ℕ → ℕ → Bool
elapsed_more now t d = ltb (t + d) now

-- ReservationTTL and UnhealthyGrace
abbrev pub reservation_ttl : ℕ
reservation_ttl = 30 * (24 * hour)

abbrev pub unhealthy_grace : ℕ
unhealthy_grace = 30 * (60 * 1000000000)

-- The time of a preview's access log, if there is one.
unfoldable pub used_at : ℕ → Option ℕ → Preview → Preview
used_at now none p = p
used_at now (some t) p =
    if ltb p.last_used_at t && leb t now then record p { last_used_at = t } else p

unfoldable pub refresh_usage : (Text → Option ℕ) → ℕ → Registry → Registry
unfolding used_at
refresh_usage log_time now reg = record reg {
  previews = map (λ p. used_at now (log_time p.id) p) reg.previews;
}

unfoldable pub prune_reservations : ℕ → Registry → Registry
prune_reservations now reg = record reg {
  reservations =
      filter (λ e. not (elapsed_more now e.1.last_seen reservation_ttl)) reg.reservations;
}

-- `reservations[id] = r` and `reservations[id]`
unfoldable pub reserve :
    Text → PortReservation → List (Text × PortReservation) → List (Text × PortReservation)
reserve id r [] = (id, r) ∷ []
reserve id r (e ∷ m) = if text_eq e.0 id then (id, r) ∷ m else e ∷ reserve id r m

unfoldable pub reservation : Text → List (Text × PortReservation) → Option PortReservation
reservation id [] = none
reservation id (e ∷ m) = if text_eq e.0 id then some e.1 else reservation id m

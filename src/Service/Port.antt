-- ===== src/Service/Port.antt =====
-- Service.choosePort: the HTTPS port and the gateway port of a preview, and the preview that gives
-- way for it.
use tailpreview.Base.{
  ℕ, zero, suc, ◌+◌, ◌-◌, Bool, true, false, not, ◌&&◌, ◌||◌, Option, none, some, List, [], ◌∷◌,
  ◌++◌, ltb, ◌==◌, if◌then◌else◌,
}
use tailpreview.Base.Lists.{any, filter}
use tailpreview.Base.Strings.{Text}
use tailpreview.Base.Outcome.{Outcome, ok, err}
use tailpreview.Model.{Preview, PortReservation, Registry}
use tailpreview.Errors.{
  Error, plain, owns_port, outside_pool, port_owned, gateway_in_use, serve_configured,
}
use tailpreview.Host.{Service}
use tailpreview.Host.Monad.{M, pure, fail, lift, ◌>>=◌}
use tailpreview.Host.Calls.{port_available, active_requests, ask}
use tailpreview.Service.Select.{Found, index_by_id, preview_has_active_requests, sort_by, by_use}
use tailpreview.Service.Usage.{reservation}

abbrev pub default_port_start : ℕ
default_port_start = 8443

abbrev pub default_port_end : ℕ
default_port_end = 8452

abbrev pub default_gateway_start : ℕ
default_gateway_start = 18080

abbrev pub or_zero : ℕ → ℕ → ℕ
or_zero n d = if n == 0 then d else n

unfoldable pub port_start : Service → ℕ
port_start s = or_zero s.port_start default_port_start

unfoldable pub port_end : Service → ℕ
port_end s = or_zero s.port_end default_port_end

-- `start + port - portStart` of ints: a port below the pool is possible only for a reservation, and
-- the sum is not negative unless the gateway start is smaller than the distance.
unfoldable pub gateway_for : Service → ℕ → ℕ
gateway_for s p = or_zero s.gateway_start default_gateway_start + p - port_start s

abbrev pub uses_port : ℕ → Preview → Bool
uses_port p q = q.external_port == p

unfoldable pub contains_int : List ℕ → ℕ → Bool
contains_int xs n = any (λ x. x == n) xs

-- `for port := start; port <= end; port++`, by the number of rounds left.
unfoldable pub ports_from : ℕ → ℕ → List ℕ
ports_from zero p = []
ports_from (suc n) p = p ∷ ports_from n (suc p)

unfoldable pub pool : Service → List ℕ
unfolding ports_from port_start port_end
pool s = ports_from (suc (port_end s) - port_start s) (port_start s)

unfoldable pub add_missing : List ℕ → List ℕ → List ℕ
unfolding contains_int
add_missing acc [] = acc
add_missing acc (p ∷ ps) = add_missing (if contains_int acc p then acc else acc ++ p ∷ []) ps

abbrev pub reserved_port : Option PortReservation → List ℕ
reserved_port none = []
reserved_port (some r) = r.port ∷ []

-- The candidates in order: the requested port, or else the reserved one, then the pool.
abbrev pub preferred : Service → Registry → Text → ℕ → Outcome Error (List ℕ)
preferred s reg id requested =
    if requested == 0
    then ok (reserved_port (reservation id reg.reservations))
    else if ltb requested (port_start s) || ltb (port_end s) requested
    then err (outside_pool requested (port_start s) (port_end s))
    else ok (requested ∷ [])

abbrev pub and_pool : Service → Outcome Error (List ℕ) → Outcome Error (List ℕ)
and_pool s (ok first) = ok (add_missing first (pool s))
and_pool s (err e) = err e

unfoldable pub candidates : Service → Registry → Text → ℕ → Outcome Error (List ℕ)
candidates s reg id requested = and_pool s (preferred s reg id requested)

-- The port, the gateway port and the evicted preview.
pub record Choice : Type 0 where
  pub port : ℕ
  pub gateway : ℕ
  pub evicted : Option Preview

-- `continue`, or an error where the port was requested.
abbrev pub skip : ℕ → Error → M (Option Choice) → M (Option Choice)
skip requested e rest = if requested == 0 then rest else fail e

abbrev pub try_port : Service → ℕ → ℕ → Bool → M (Option Choice) → M (Option Choice)
try_port s requested p available rest =
    if available
    then pure (some (record { port = p; gateway = gateway_for s p; evicted = none }))
    else skip requested (serve_configured requested) rest

abbrev pub probe : Service → ℕ → ℕ → Bool → M (Option Choice) → M (Option Choice)
probe s requested p false rest = skip requested (gateway_in_use (gateway_for s p) p) rest
probe s requested p true rest = do
  available ← port_available s p
  try_port s requested p available rest

-- The loop over the candidates: the first that is free, or `none`.
unfoldable pub first_free : Service → List Preview → ℕ → List ℕ → M (Option Choice)
unfolding gateway_for
first_free s ps requested [] = pure none
first_free s ps requested (p ∷ rest) =
    let later = first_free s ps requested rest in
    if any (uses_port p) ps
    then skip requested (port_owned requested) later
    else do free ← ask (λ h. s.host.port_free h (gateway_for s p)); probe s requested p free later

unfoldable pub eviction_candidates : Service → List (Text × ℕ) → List Preview → List Preview
eviction_candidates s active ps =
    filter (λ p. not p.pinned && not (preview_has_active_requests s.net p active)) ps

-- The ports of a registered preview, with the preview that gives way.
abbrev pub ports_of : Preview → Option Preview → Choice
ports_of p evicted = record { port = p.external_port; gateway = p.gateway_port; evicted = evicted }

abbrev pub victim_of : List Preview → Outcome Error Choice
victim_of [] = err (plain "preview limit reached and every preview is pinned or active")
victim_of (v ∷ _) = ok (ports_of v (some v))

-- The preview that was used the longest ago, of those that are neither pinned nor serving.
unfoldable pub evict : Service → List Preview → M Choice
evict s ps = do
  active ← active_requests s
  lift (victim_of (sort_by by_use (eviction_candidates s active ps)))

abbrev pub keep_port : ℕ → Preview → Outcome Error Choice
keep_port requested p =
    if not (requested == 0) && not (requested == p.external_port)
    then err (owns_port p.external_port)
    else ok (ports_of p none)

abbrev pub or_evict : Service → List Preview → Option Choice → M Choice
or_evict s ps none = evict s ps
or_evict s ps (some c) = pure c

unfoldable pub allocate : Service → Registry → Text → ℕ → M Choice
allocate s reg id requested = do
  ports ← lift (candidates s reg id requested)
  found ← first_free s reg.previews requested ports
  or_evict s reg.previews found

abbrev pub choice_of : Service → Registry → Text → ℕ → Option Found → M Choice
choice_of s reg id requested none = allocate s reg id requested
choice_of s reg id requested (some f) = lift (keep_port requested f.preview)

unfoldable pub choose_port : Service → Registry → Text → ℕ → M Choice
choose_port s reg id requested = choice_of s reg id requested (index_by_id reg.previews id)

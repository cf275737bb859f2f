-- ===== src/Caddy/Requests.antt =====
-- The counts that ActiveRequests of internal/caddy/manager.go returns.
use tailpreview.Base.{ℕ, ◌+◌, ◌≡◌, refl, List, [], ◌∷◌, arith, if◌then◌else◌, Bool-cases, inl, inr}
use tailpreview.Base.Strings.{Text, text_eq, text_eq_iff}
use tailpreview.Base.Outcome.{ok}
use tailpreview.Caddy.Manager.{World, is_running, add_requests, sum_requests, read_active_requests}

-- `m[address]`: zero for an address that is not there.
abbrev pub count_of : Text → List (Text × ℕ) → ℕ
count_of address [] = 0
count_of address ((a, n) ∷ rest) = if text_eq a address then n else count_of address rest

-- The sum over all entries of an address.
abbrev pub total_of : Text → List (Text × ℕ) → ℕ
total_of address [] = 0
total_of address ((a, n) ∷ rest) =
    if text_eq a address then n + total_of address rest else total_of address rest

abbrev share : Text → Text → ℕ → ℕ
share address b n = if text_eq b address then n else 0

add_requests_lem :
    (address b : Text) (n : ℕ) (r : List (Text × ℕ))
    → count_of address (add_requests b n r) ≡ count_of address r + share address b n
unfolding add_requests
add_requests_lem address b n [] = ground arith
add_requests_lem address b n ((a, m) ∷ rest) = ground (
  arith,
  text_eq_iff a b,
  text_eq_iff a address,
  text_eq_iff b address,
  add_requests_lem address b n rest,
)

sum_requests_lem :
    (address : Text) (payload r : List (Text × ℕ))
    → count_of address (sum_requests payload r) ≡ count_of address r + total_of address payload
unfolding sum_requests
sum_requests_lem address [] r = ground arith
sum_requests_lem address ((b, n) ∷ payload) r =
    ground
      (arith, sum_requests_lem address payload (add_requests b n r), add_requests_lem address b n r)

-- Where Caddy runs and answers with status 200 and a list of upstreams, ActiveRequests returns a map
-- that has for each address the sum of the requests of all its entries; where none runs, the map has
-- no requests.
pub read_active_requests_lem :
    (payload : List (Text × ℕ)) (w : World) (address : Text)
    → (m : List (Text × ℕ)) × (read_active_requests (ok (200, ok payload)) w ≡ ok m)
      × (count_of address m ≡ (if is_running w.caddy then total_of address payload else 0))
unfolding read_active_requests
read_active_requests_lem payload w address = elim (Bool-cases (is_running w.caddy)) [
  | inl e ↦ (
    sum_requests payload [],
    rw e refl,
    rw e (omega (arith, sum_requests_lem address payload [])),
  )
  | inr e ↦ ([], rw e refl, rw e refl)
]

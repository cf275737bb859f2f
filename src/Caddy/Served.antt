-- ===== src/Caddy/Served.antt =====
-- What Generate of internal/caddy/config.go has Caddy serve.
use tailpreview.Base.{◌≡◌, false, some, List, [], ◌∷◌}
use tailpreview.Base.Lists.{All, Some}
use tailpreview.Base.Strings.{Text, text_eq}
use tailpreview.Base.Outcome.{ok}
use tailpreview.Model.{Route, Preview}
use tailpreview.Url.{Net}
use tailpreview.Json.{Json, Members, empty, member}
use tailpreview.Config.Sound.{IsLocal}
use tailpreview.Caddy.{Paths}
use tailpreview.Caddy.Dialed.{get_member, IsDialed, IsListening}
use tailpreview.Caddy.Config.{server_name, server_json, Parts, add_previews, config_json}

-- A route's upstream is an HTTP or HTTPS URL of this machine.
abbrev pub HasLocalRoutes : Net → Preview → Type 0
HasLocalRoutes net p = All (λ r. IsLocal net r.upstream) p.routes

-- One object for each route, in order.
abbrev pub AreDialed : Net → List Route → List Json → Type 0
AreDialed net [] [] = Unit
AreDialed net [] (j ∷ js) = ⊥
AreDialed net (r ∷ rs) [] = ⊥
AreDialed net (r ∷ rs) (j ∷ js) = IsDialed net r j × AreDialed net rs js

-- The preview has a server under its name, which listens on its gateway port and has these routes.
abbrev pub IsServed : Net → Members → Preview → Type 0
IsServed net servers p =
    (js : List Json) × AreDialed net p.routes js
    × (get_member (server_name p) servers ≡ some (server_json p js))
    × IsListening p js (server_json p js)

-- The names of the servers are distinct.
abbrev pub AreApart : Preview → Preview → Type 0
AreApart p q = text_eq (server_name q) (server_name p) ≡ false

abbrev pub AreNamed : List Preview → Type 0
AreNamed [] = Unit
AreNamed (p ∷ ps) = All (AreApart p) ps × AreNamed ps

module _ (net : Net) where
  module _ (paths : Paths) (P : Text → Json → Type 0) where
    -- Every key and its value have the property.
    abbrev pub Everywhere : Members → Type 0
    Everywhere empty = Unit
    Everywhere (member k v ms) = P k v × Everywhere ms

    -- The server of the preview has the property, whatever objects its routes have.
    abbrev pub HasServer : Preview → Type 0
    HasServer p =
        (js : List Json) → AreDialed net p.routes js → P (server_name p) (server_json p js)

    -- What the loop makes of `before`.
    record Added (before : Parts) (ps : List Preview) : Type 0 where
      after : Parts
      result : add_previews paths net ps before ≡ ok after
      served : All (IsServed net after.servers) ps
      kept :
          (key : Text)
          → All (λ p. text_eq (server_name p) key ≡ false) ps
          → get_member key after.servers ≡ get_member key before.servers
      every : Everywhere before.servers → Everywhere after.servers

  -- A name and a server that belong to one of the previews.
  abbrev pub IsOneOf : List Preview → Text → Json → Type 0
  IsOneOf ps key v =
      Some
        (λ p.
          (key ≡ server_name p)
          × ((js : List Json) × AreDialed net p.routes js × v ≡ server_json p js))
        ps

  -- The servers of the configuration: those of the previews and no others.
  pub record IsConfigured (paths : Paths) (ps : List Preview) (config : Json) : Type 0 where
    pub parts : Parts
    pub is_config : config ≡ config_json paths parts
    pub served : All (IsServed net parts.servers) ps
    pub only : Everywhere paths (IsOneOf ps) parts.servers

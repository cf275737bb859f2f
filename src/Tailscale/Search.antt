-- ===== src/Tailscale/Search.antt =====
-- containsPort, stringContainsPort, containsEnabledFunnel, containsEnabledFunnelPort and truthy.
use tailpreview.Base.{ℕ, Bool, true, false, not, ◌&&◌, ◌||◌, Option, none, some, ◌++◌, ◌==◌}
use tailpreview.Base.Strings.{Text, codes, text_eq, has_suffix, contains, to_lower, is_empty, itoa}
use tailpreview.Url.{Url, Net, port}
use tailpreview.Json.{
  Json, null, boolean, number, string, array, object, Items, end, item, Members, empty, member,
}

abbrev pub has_port : ℕ → Option Url → Bool
has_port p none = false
has_port p (some u) = text_eq (port u) (itoa p)

unfoldable pub string_contains_port : Net → Text → ℕ → Bool
string_contains_port net value p =
    let needle = codes ":" ++ itoa p in
    has_port p (net.parse value)
    || contains value (needle ++ codes "/")
    || has_suffix value needle
    || contains value (needle ++ codes " ")

abbrev pub is_number : ℕ → Option ℕ → Bool
is_number p none = false
is_number p (some n) = n == p

-- `text == wanted || stringContainsPort(text, port)`
unfoldable pub names_port : Net → ℕ → Text → Bool
names_port net p text = text_eq text (itoa p) || string_contains_port net text p

module _ (net : Net) (p : ℕ) where
  unfoldable mutual
    pub contains_port : Json → Bool
    contains_port null = false
    contains_port (boolean _) = false
    contains_port (number n) = is_number p n.truncated
    contains_port (string t) = names_port net p t
    contains_port (array xs) = contains_port_items xs
    contains_port (object ms) = contains_port_members ms

    pub contains_port_items : Items → Bool
    contains_port_items end = false
    contains_port_items (item x xs) = contains_port x || contains_port_items xs

    pub contains_port_members : Members → Bool
    contains_port_members empty = false
    contains_port_members (member key x ms) =
        names_port net p key || contains_port x || contains_port_members ms

unfoldable mutual
  pub truthy : Json → Bool
  truthy null = false
  truthy (boolean b) = b
  truthy (number n) = not n.is_zero
  truthy (string t) = not (is_empty t) && not (text_eq t (codes "false"))
  truthy (array end) = false
  truthy (array (item _ _)) = true
  truthy (object ms) = truthy_members ms

  pub truthy_members : Members → Bool
  truthy_members empty = false
  truthy_members (member _ x ms) = truthy x || truthy_members ms

unfoldable pub is_funnel_key : Text → Bool
is_funnel_key key = contains (to_lower key) (codes "funnel")

unfoldable mutual
  pub contains_enabled_funnel : Json → Bool
  contains_enabled_funnel null = false
  contains_enabled_funnel (boolean _) = false
  contains_enabled_funnel (number _) = false
  contains_enabled_funnel (string _) = false
  contains_enabled_funnel (array xs) = contains_enabled_funnel_items xs
  contains_enabled_funnel (object ms) = contains_enabled_funnel_members ms

  pub contains_enabled_funnel_items : Items → Bool
  contains_enabled_funnel_items end = false
  contains_enabled_funnel_items (item x xs) =
      contains_enabled_funnel x || contains_enabled_funnel_items xs

  pub contains_enabled_funnel_members : Members → Bool
  contains_enabled_funnel_members empty = false
  contains_enabled_funnel_members (member key x ms) =
      (is_funnel_key key && truthy x)
      || contains_enabled_funnel x
      || contains_enabled_funnel_members ms

module _ (net : Net) (p : ℕ) where
  unfoldable mutual
    pub contains_enabled_funnel_port : Bool → Json → Bool
    contains_enabled_funnel_port inside null = false
    contains_enabled_funnel_port inside (boolean _) = false
    contains_enabled_funnel_port inside (number n) = inside && is_number p n.truncated
    contains_enabled_funnel_port inside (string t) = inside && names_port net p t
    contains_enabled_funnel_port inside (array xs) = funnel_port_items inside xs
    contains_enabled_funnel_port inside (object ms) = funnel_port_members inside ms

    pub funnel_port_items : Bool → Items → Bool
    funnel_port_items inside end = false
    funnel_port_items inside (item x xs) =
        contains_enabled_funnel_port inside x || funnel_port_items inside xs

    pub funnel_port_members : Bool → Members → Bool
    funnel_port_members inside empty = false
    funnel_port_members inside (member key x ms) =
        let next = inside || is_funnel_key key in
        (next && names_port net p key && truthy x)
        || contains_enabled_funnel_port next x
        || funnel_port_members inside ms

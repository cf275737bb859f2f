-- ===== src/Json.antt =====
-- A decoded JSON value, as encoding/json gives it and takes it.
use tailpreview.Base.{ℕ, Bool, Option}
use tailpreview.Base.Strings.{Text}

-- A number as float64: `int(typed)`, if it is not negative, and whether it is zero.
pub record Number : Type 0 where
  pub truncated : Option ℕ
  pub is_zero : Bool

-- A decoded JSON value. The members of an object stand in some order, as Go ranges over a map.
mutual
  pub data Json : Type 0 where
    null : Json
    boolean : Bool → Json
    number : Number → Json
    string : Text → Json
    array : Items → Json
    object : Members → Json

  pub data Items : Type 0 where
    end : Items
    item : Json → Items → Items

  pub data Members : Type 0 where
    empty : Members
    member : Text → Json → Members → Members

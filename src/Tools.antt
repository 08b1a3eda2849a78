-- ===== src/Tools.antt =====
-- Schemas and arguments of tools, as internal/provider/backend/toolsynth.go holds them in decoded
-- JSON.
pub mod Gemini
pub mod Values
pub mod Walker
pub mod Simple
pub mod Tests
use zolem.Base.{Bool, true, false, String, ◌==◌, Option, none, some, if◌then◌else◌}

-- A value as the decoder gives it, with a number by its literal.
mutual
  pub data Json : Type 0 where
    null : Json
    bool : Bool → Json
    number : String → Json
    text : String → Json
    array : Items → Json
    object : Fields → Json

  pub data Items : Type 0 where
    nil : Items
    item : Json → Items → Items

  pub data Fields : Type 0 where
    end : Fields
    field : String → Json → Fields → Fields

-- m[key]
unfoldable pub field_of : String → Fields → Option Json
field_of key end = none
field_of key (field k v fs) = let rest = field_of key fs in if k == key then some v else rest

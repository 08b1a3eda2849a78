-- ===== src/Fixture.antt =====
-- internal/fixture: the records that selectors and matchers share.
pub mod Sequence
pub mod Engine
pub mod Selector
pub mod Matcher
pub mod Tests
use zolem.Base.{ℤ, ltb_ℤ, pos, Bool, true, false, not, String, List, Option}

-- fixture.go, as far as selection reads it. `has_module` says whether a WASM module is loaded, and
-- `module_` stands for it.
pub record Fixture : Type 0 where
  pub id : String
  pub provider : String
  pub version : String
  pub module_ : Option String

pub record MatchRequest : Type 0 where
  pub provider : String
  pub version : String
  pub labels : List (String × String)
  pub body : String

-- A float32: every finite one is a whole multiple of 2 ^ -149, which `finite` counts.
pub data Float32 : Type 0 where
  nan : Float32
  inf : (negative : Bool) → Float32
  finite : ℤ → Float32

abbrev pub lower : Bool → Bool → Bool
lower true k = not k
lower false k = false

-- a < b, which no NaN satisfies.
abbrev pub less_32 : Float32 → Float32 → Bool
less_32 nan b = false
less_32 (inf n) nan = false
less_32 (inf n) (inf k) = lower n k
less_32 (inf n) (finite b) = n
less_32 (finite a) nan = false
less_32 (finite a) (inf k) = not k
less_32 (finite a) (finite b) = ltb_ℤ a b

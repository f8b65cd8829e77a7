-- ===== src/Data/Values.antt =====
-- The values of a decoded JSON object. Lists, objects and fractions are not looked into: such a value
-- is its identity.
use core_host.Base.{ℕ, Bool, String, none, some}
use core_host.Base.Decimal.{ℤ}
use core_host.Base.Dict.{Dict, lookup}

pub data Value : Type 0 where
  null : Value
  boolean : Bool → Value
  integer : ℤ → Value
  text : String → Value
  real list object : ℕ → Value

-- `payload.get(name, default)`
unfoldable pub get_or : String → Value → Dict Value → Value
unfolding lookup
get_or name default d = elim (lookup name d) [ none ↦ default | some v ↦ v ]

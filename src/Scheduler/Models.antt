-- ===== src/Scheduler/Models.antt =====
-- core/scheduler/models.py. `max_assignments` is a natural number, and the `metadata` of an
-- assignment is left out, since nothing reads it.
use core_host.Base.{
  ℕ, ◌+◌, ◌*◌, Bool, true, false, ◌&&◌, String, Option, none, some, List, [], length, select, elem,
  to_set, if◌then◌else◌, ◌==◌,
}
use core_host.Base.Dict.{Dict}

pub record AgentProfile : Type 0 where
  pub profile_id : String
  pub name : String
  pub agent_type : String
  pub version : String
  pub host : String
  pub capabilities : List String
  pub supported_device_types : List String
  pub supported_platforms : List String
  pub max_assignments : ℕ
  pub metadata : Dict (Option String)

pub record Assignment : Type 0 where
  pub device_id : String
  pub agent_id : String
  pub profile_id : String
  pub assigned_at : ℕ

-- `not xs or x in xs`, where `x` may be None
abbrev pub allows : List String → Option String → Bool
allows [] x = true
allows xs none = false
allows xs (some x) = elem x xs

unfoldable pub supports_device : AgentProfile → Option String → Option String → Bool
supports_device p device_type platform =
    allows p.supported_device_types device_type && allows p.supported_platforms platform

-- How many capabilities the profile and the device share, as sets.
unfoldable pub shared : AgentProfile → List String → ℕ
shared p device_capabilities =
    length (select (λ c. elem c device_capabilities) (to_set p.capabilities))

unfoldable pub score_for : AgentProfile → List String → Option String → Option String → ℕ
score_for p device_capabilities device_type platform =
    shared p device_capabilities * 10
    + (if allows p.supported_device_types device_type then 5 else 0)
    + (if allows p.supported_platforms platform then 5 else 0)
    + (if p.host == "windows-host" then 2 else 0)

-- ===== src/Health/Models.antt =====
-- core/health/models.py, and the fields of `HealthMonitor` in core/health/monitor.py. A check is the
-- identity of a function, which does not use the monitor while it is called.
use core_host.Base.{ℕ, Bool, true, String, List, []}
use core_host.Base.Dict.{Dict}

abbrev pub Check : Type 0
Check = ℕ

pub data HealthStatus : Type 0 where
  unknown healthy degraded unhealthy : HealthStatus

pub record HealthResult : Type 0 where
  pub component_id : String
  pub status : HealthStatus
  pub message : String
  pub checked_at : ℕ

pub data HealthError : Type 0 where
  empty_component_id not_running : HealthError
  key_error : String → HealthError

-- `listens` tells whether there is an `on_change`. Two fields are none of the program's: `calls` has
-- the calls of checks and `notified` those of `on_change`, in order.
pub record HealthMonitor : Type 0 where
  pub checks : Dict Check
  pub results : Dict HealthResult
  pub last_checked : Dict ℕ
  pub check_counts : Dict ℕ
  pub failure_counts : Dict ℕ
  pub active : Bool
  pub listens : Bool
  pub calls : List Check
  pub notified : List HealthResult

-- `HealthMonitor(on_change)`
abbrev pub init : Bool → HealthMonitor
init listens = record {
  checks = [];
  results = [];
  last_checked = [];
  check_counts = [];
  failure_counts = [];
  active = true;
  listens = listens;
  calls = [];
  notified = [];
}

-- What a check does: it returns a result, returns something else, or raises with a text.
pub data Answer : Type 0 where
  returns : HealthResult → Answer
  returns_other : Answer
  raises : String → Answer

-- What a check does when it is called after the calls so far, and the clock before and after the
-- next call.
pub record World : Type 0 where
  pub answer : List Check → Check → Answer
  pub before : List Check → ℕ
  pub after : List Check → ℕ

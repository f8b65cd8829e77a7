-- ===== src/Health/Monitor.antt =====
-- The methods of `HealthMonitor` in core/health/monitor.py.
pub mod Consistent
pub mod Counted
pub mod Valid
pub mod Overall
pub mod Checked
use Prim.Native.String.{◌++◌ as ◌<>◌}
use core_host.Base.{
  ℕ, ◌+◌, Bool, true, false, not, ◌&&◌, ◌||◌, String, Option, none, some, List, [], ◌∷◌, ◌++◌,
  length, or_else, if◌then◌else◌, Result, ok, err, ◌==◌,
}
use core_host.Base.Dict.{Dict, lookup, insert, erase, keys, values}
use core_host.Health.Models.{
  Check, HealthStatus, HealthResult, HealthError, HealthMonitor, init, Answer, World, unknown,
  healthy, degraded, unhealthy, empty_component_id, not_running, key_error, returns, returns_other,
  raises,
}

unfoldable pub start : HealthMonitor → HealthMonitor
start m = record m { active = true }

unfoldable pub stop : HealthMonitor → HealthMonitor
stop m = record m { active = false }

abbrev pub not_checked : String → ℕ → HealthResult
not_checked id now = record {
  component_id = id;
  status = unknown;
  message = "Health check has not run yet.";
  checked_at = now;
}

unfoldable pub register :
    World → String → Check → HealthMonitor → Result HealthError (Unit {0}) × HealthMonitor
register world id check m = if id == "" then (err empty_component_id, m) else (
  ok tt,
  record m {
    checks = insert id check m.checks;
    results = insert id (not_checked id (world.before m.calls)) m.results;
    last_checked = erase id m.last_checked;
    check_counts = insert id 0 m.check_counts;
    failure_counts = insert id 0 m.failure_counts;
  },
)

unfoldable pub unregister : String → HealthMonitor → HealthMonitor
unregister id m = record m {
  checks = erase id m.checks;
  results = erase id m.results;
  last_checked = erase id m.last_checked;
  check_counts = erase id m.check_counts;
  failure_counts = erase id m.failure_counts;
}

-- `counts[id] += 1`, where `counts[id]` is the last argument
abbrev pub count_up : String → Dict ℕ → Option ℕ → Result HealthError (Dict ℕ)
count_up id counts none = err (key_error id)
count_up id counts (some n) = ok (insert id (n + 1) counts)

abbrev pub same_status : HealthStatus → HealthStatus → Bool
same_status unknown unknown = true
same_status healthy healthy = true
same_status degraded degraded = true
same_status unhealthy unhealthy = true
same_status _ _ = false

-- `previous_status != result.status`
abbrev pub differs : Option HealthResult → HealthStatus → Bool
differs none s = true
differs (some previous) s = not (same_status previous.status s)

-- `self._on_change(result)`, if there is one; what it raises is dropped.
abbrev pub notify : Bool → HealthResult → HealthMonitor → HealthMonitor
notify true r m = record m { notified = m.notified ++ r ∷ [] }
notify false r m = m

abbrev pub Checking : Type 0
Checking = Result HealthError HealthResult × HealthMonitor

-- The rest of `check` once there is a result.
abbrev pub store : String → ℕ → HealthResult → HealthMonitor → Checking
store id checked_at r m = (
  ok r,
  notify (m.listens && differs (lookup id m.results) r.status) r (record m {
    results = insert id r m.results;
    last_checked = insert id checked_at m.last_checked;
  }),
)

abbrev pub failure : String → String → ℕ → HealthResult
failure id message now = record {
  component_id = id;
  status = unhealthy;
  message = message;
  checked_at = now;
}

-- A failed check is counted before its result is stored.
abbrev pub store_failure :
    String → ℕ → HealthResult → HealthMonitor → Result HealthError (Dict ℕ) → Checking
store_failure id checked_at r m (err e) = (err e, m)
store_failure id checked_at r m (ok counts) =
    store id checked_at r (record m { failure_counts = counts })

-- The call of the check, with what it does.
abbrev pub judge : String → ℕ → ℕ → HealthMonitor → Answer → Checking
judge id checked_at now m (returns r) = store id checked_at r m
judge id checked_at now m returns_other =
    store_failure id checked_at (failure id "Health check returned an invalid result." now) m
      (count_up id m.failure_counts (lookup id m.failure_counts))
judge id checked_at now m (raises text) =
    store_failure id checked_at (failure id ("Health check failed: " <> text) now) m
      (count_up id m.failure_counts (lookup id m.failure_counts))

abbrev pub check_counted :
    World → String → Check → HealthMonitor → Result HealthError (Dict ℕ) → Checking
check_counted world id c m (err e) = (err e, m)
check_counted world id c m (ok counts) =
    judge id (world.before m.calls) (world.after m.calls)
      (record m { check_counts = counts; calls = m.calls ++ c ∷ [] }) (world.answer m.calls c)

abbrev pub check_found : World → String → HealthMonitor → Option Check → Checking
check_found world id m none = (
  ok (record {
    component_id = id;
    status = unknown;
    message = "No health check registered.";
    checked_at = world.before m.calls;
  }),
  m,
)
check_found world id m (some c) =
    check_counted world id c m (count_up id m.check_counts (lookup id m.check_counts))

abbrev pub check_if : Bool → World → String → HealthMonitor → Checking
check_if false world id m = (err not_running, m)
check_if true world id m = check_found world id m (lookup id m.checks)

unfoldable pub check : World → String → HealthMonitor → Checking
check world id m = check_if m.active world id m

abbrev pub CheckingAll : Type 0
CheckingAll = Result HealthError (List HealthResult) × HealthMonitor

abbrev pub prepend : HealthResult → CheckingAll → CheckingAll
prepend r (err e, m) = (err e, m)
prepend r (ok rs, m) = (ok (r ∷ rs), m)

-- A check that raises ends the loop.
abbrev pub continue_with : Checking → CheckingAll → CheckingAll
continue_with (err e, m) rest = (err e, m)
continue_with (ok r, m) rest = prepend r rest

unfoldable pub check_each : World → List String → HealthMonitor → CheckingAll
check_each world [] m = (ok [], m)
check_each world (id ∷ ids) m =
    continue_with (check world id m) (check_each world ids (check world id m).1)

abbrev pub check_all_if : Bool → World → HealthMonitor → CheckingAll
check_all_if false world m = (err not_running, m)
check_all_if true world m = check_each world (keys m.checks) m

unfoldable pub check_all : World → HealthMonitor → CheckingAll
check_all world m = check_all_if m.active world m

unfoldable pub get : World → String → HealthMonitor → HealthResult
get world id m = or_else (lookup id m.results) (record {
  component_id = id;
  status = unknown;
  message = "Component not registered.";
  checked_at = world.before m.calls;
})

unfoldable pub status : World → String → HealthMonitor → HealthStatus
unfolding get
status world id m = (get world id m).status

-- `any(status == s for status in statuses)`
unfoldable pub any_with : HealthStatus → List HealthResult → Bool
any_with s [] = false
any_with s (r ∷ rs) = same_status r.status s || any_with s rs

-- `overall_status`, of `self._results.values()`
abbrev pub overall_of : List HealthResult → HealthStatus
overall_of [] = unknown
overall_of (r ∷ rs) =
    if any_with unhealthy (r ∷ rs)
    then unhealthy
    else if any_with degraded (r ∷ rs)
    then degraded
    else if any_with unknown (r ∷ rs)
    then unknown
    else healthy

unfoldable pub overall_status : HealthMonitor → HealthStatus
overall_status m = overall_of (values m.results)

-- `check_count` and `failure_count`
unfoldable pub check_count : String → HealthMonitor → ℕ
check_count id m = or_else (lookup id m.check_counts) 0

unfoldable pub failure_count : String → HealthMonitor → ℕ
failure_count id m = or_else (lookup id m.failure_counts) 0

unfoldable pub count : HealthMonitor → ℕ
count m = length m.checks

unfoldable pub clear : HealthMonitor → HealthMonitor
clear m = record m {
  checks = [];
  results = [];
  last_checked = [];
  check_counts = [];
  failure_counts = [];
}

-- The calls that change the monitor.
pub data Op : Type 0 where
  starts stops clears checks_all : Op
  registers : String → Check → Op
  unregisters checks_one : String → Op

unfoldable pub step : World → Op → HealthMonitor → HealthMonitor
step world starts m = start m
step world stops m = stop m
step world clears m = clear m
step world checks_all m = (check_all world m).1
step world (registers id c) m = (register world id c m).1
step world (unregisters id) m = unregister id m
step world (checks_one id) m = (check world id m).1

unfoldable pub run : World → List Op → HealthMonitor → HealthMonitor
unfolding step
run world [] m = m
run world (op ∷ ops) m = run world ops (step world op m)

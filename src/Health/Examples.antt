-- ===== src/Health/Examples.antt =====
-- Two components: the check of the first returns a result when it is called first and raises after
-- that, the check of the second returns something else than a result.
use core_host.Base.{◌≡◌, refl, true, List, [], ◌∷◌, some, length, num_eq, if◌then◌else◌}
use core_host.Base.Dict.{lookup, insert, erase}
use core_host.Health.Models.{
  HealthResult, HealthMonitor, World, returns, returns_other, raises, healthy, unhealthy, init,
}
use core_host.Health.Monitor.{
  Op, start, stop, register, unregister, check, check_each, check_all, clear, registers, checks_all,
  checks_one, step, run, any_with, overall_status, failure_count, check_count,
}
use core_host.Health.Monitor.Consistent.{IsConsistent}
use core_host.Health.Monitor.Valid.{run-IsConsistent}
use core_host.Health.Monitor.Overall.{IsOverall, overall_status-IsOverall}
use core_host.Health.Monitor.Checked.{HasChecked, check-HasChecked}

abbrev fine : HealthResult
fine = record { component_id = "bus"; status = healthy; message = "fine"; checked_at = 7 }

abbrev world : World
world = record {
  answer = λ calls c.
      if num_eq c 2
      then returns_other
      else if num_eq (length calls) 0
      then returns fine
      else raises "down";
  before = λ calls. length calls;
  after = λ calls. length calls;
}

abbrev script : List Op
script = registers "bus" 1 ∷ registers "router" 2 ∷ checks_all ∷ checks_one "bus" ∷ []

-- Both statuses changed in the first round, and that of the first component in the second.
run-script :
    (overall_status (run world script (init true)) ≡ unhealthy)
    × (length (run world script (init true)).notified ≡ 3)
    × (failure_count "bus" (run world script (init true)) ≡ 1)
    × (check_count "bus" (run world script (init true)) ≡ 2)
unfolding run step start stop register unregister check check_each check_all clear lookup insert
    erase any_with overall_status failure_count check_count
run-script = (refl, refl, refl, refl)

abbrev registered : HealthMonitor
registered = record (init true) {
  checks = ("bus", 1) ∷ [];
  results = ("bus", fine) ∷ [];
  check_counts = ("bus", 0) ∷ [];
  failure_counts = ("bus", 0) ∷ [];
}

overall_status-IsOverall_example : IsOverall (overall_status registered) (fine ∷ [])
overall_status-IsOverall_example = overall_status-IsOverall registered

run-IsConsistent_example : IsConsistent (run world script (init true))
run-IsConsistent_example = run-IsConsistent world true script

abbrev one_check : HealthMonitor
one_check = run world (registers "bus" 1 ∷ []) (init true)

one_check_there : (one_check.active ≡ true) × (lookup "bus" one_check.checks ≡ some 1)
unfolding run step register lookup insert erase
one_check_there = (refl, refl)

check-HasChecked_example :
    HasChecked "bus" 1 (returns fine) 0 0 one_check (check world "bus" one_check)
unfolding run register
check-HasChecked_example =
    check-HasChecked world "bus" 1 one_check (run-IsConsistent world true (registers "bus" 1 ∷ []))
      one_check_there.0 one_check_there.1

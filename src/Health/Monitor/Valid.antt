-- ===== src/Health/Monitor/Valid.antt =====
-- The tables of `HealthMonitor` in core/health/monitor.py.
use core_host.Base.{refl, Bool, true, false, String, List, [], ◌∷◌, ok, err, arith}
use core_host.Base.Dict.{lookup, has, keys}
use core_host.Health.Models.{HealthResult, HealthMonitor, World, init, Check}
use core_host.Health.Monitor.{
  Op, start, stop, check, check_each, check_all_if, check_all, Checking, CheckingAll, continue_with,
  clear, starts, stops, clears, checks_all, registers, unregisters, checks_one, step, run,
}
use core_host.Health.Monitor.Consistent.{
  IsConsistent, register-IsConsistent, unregister-IsConsistent,
}
use core_host.Health.Monitor.Counted.{check-IsConsistent}

continue_with-IsConsistent :
    (one : Checking) (rest : CheckingAll)
    → IsConsistent one.1
    → IsConsistent rest.1
    → IsConsistent (continue_with one rest).1
continue_with-IsConsistent (err e, m) rest v w = v
continue_with-IsConsistent (ok r, m) (err e, n) v w = w
continue_with-IsConsistent (ok r, m) (ok rs, n) v w = w

check_each-IsConsistent :
    (world : World) (ids : List String) (m : HealthMonitor)
    → IsConsistent m
    → IsConsistent (check_each world ids m).1
unfolding check_each
check_each-IsConsistent world [] m v = v
check_each-IsConsistent world (id ∷ ids) m v =
    let one = check-IsConsistent world id m v in
    continue_with-IsConsistent (check world id m) (check_each world ids (check world id m).1) one
      (check_each-IsConsistent world ids (check world id m).1 one)

empty-IsConsistent :
    (active listens : Bool) (calls : List Check) (notified : List HealthResult)
    → IsConsistent (record (init listens) { active = active; calls = calls; notified = notified })
unfolding has lookup
empty-IsConsistent active listens calls notified = record {
  results = λ x. refl;
  counts = λ x. refl;
  failures = λ x. refl;
  bounded = λ x. omega arith;
  timed = λ x. refl;
}

check_all_if-IsConsistent :
    (active : Bool) (world : World) (m : HealthMonitor)
    → IsConsistent m
    → IsConsistent (check_all_if active world m).1
check_all_if-IsConsistent false world m v = v
check_all_if-IsConsistent true world m v = check_each-IsConsistent world (keys m.checks) m v

check_all-IsConsistent :
    (world : World) (m : HealthMonitor) → IsConsistent m → IsConsistent (check_all world m).1
unfolding check_all
check_all-IsConsistent world m v = check_all_if-IsConsistent m.active world m v

step-IsConsistent :
    (world : World) (op : Op) (m : HealthMonitor) → IsConsistent m → IsConsistent (step world op m)
unfolding step
step-IsConsistent world starts m v =
    unfold start in
    record {
      results = v.results;
      counts = v.counts;
      failures = v.failures;
      bounded = v.bounded;
      timed = v.timed;
    }
step-IsConsistent world stops m v =
    unfold stop in
    record {
      results = v.results;
      counts = v.counts;
      failures = v.failures;
      bounded = v.bounded;
      timed = v.timed;
    }
step-IsConsistent world clears m v =
    unfold clear in empty-IsConsistent m.active m.listens m.calls m.notified
step-IsConsistent world checks_all m v = check_all-IsConsistent world m v
step-IsConsistent world (registers id c) m v = register-IsConsistent world id c m v
step-IsConsistent world (unregisters id) m v = unregister-IsConsistent id m v
step-IsConsistent world (checks_one id) m v = check-IsConsistent world id m v

run_from-IsConsistent :
    (world : World) (ops : List Op) (m : HealthMonitor)
    → IsConsistent m
    → IsConsistent (run world ops m)
unfolding run
run_from-IsConsistent world [] m v = v
run_from-IsConsistent world (op ∷ ops) m v =
    run_from-IsConsistent world ops (step world op m) (step-IsConsistent world op m v)

-- For checks that do not use the monitor while they are called, and may return a result or something
-- else, or raise: after any calls of its methods, the tables of the monitor have the same components,
-- no check has failed more often than it ran, and a check has a time exactly where it has run since it
-- was registered.
pub run-IsConsistent :
    (world : World) (listens : Bool) (ops : List Op) → IsConsistent (run world ops (init listens))
run-IsConsistent world listens ops =
    run_from-IsConsistent world ops (init listens) (empty-IsConsistent true listens [] [])

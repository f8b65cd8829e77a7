-- ===== src/Health/Monitor/Consistent.antt =====
-- A consistent `HealthMonitor` of core/health/monitor.py, and what registers and unregisters in it.
use core_host.Base.{◌≤◌, ◌≡◌, String, or_else, arith, ◌==◌, inl, inr, Bool-cases, ltb}
use core_host.Base.Dict.{lookup, has, lookup-insert, lookup-erase, has-insert, has-erase}
use core_host.Health.Models.{HealthMonitor, World, Check}
use core_host.Health.Monitor.{not_checked, register, unregister}

-- The tables have the same components, no check failed more often than it ran, and a check has a
-- time where it ran.
pub record IsConsistent (m : HealthMonitor) : Type 0 where
  pub results : (x : String) → has x m.results ≡ has x m.checks
  pub counts : (x : String) → has x m.check_counts ≡ has x m.checks
  pub failures : (x : String) → has x m.failure_counts ≡ has x m.checks
  pub bounded :
      (x : String) → or_else (lookup x m.failure_counts) 0 ≤ or_else (lookup x m.check_counts) 0
  pub timed : (x : String) → has x m.last_checked ≡ ltb 0 (or_else (lookup x m.check_counts) 0)

pub register-IsConsistent :
    (world : World) (id : String) (c : Check) (m : HealthMonitor)
    → IsConsistent m
    → IsConsistent (register world id c m).1
unfolding register
register-IsConsistent world id c m v = elim (Bool-cases (id == "")) [
  | inl empty ↦ rw empty v
  | inr named ↦ rw named (record {
    results = λ x. ground (
      arith,
      v.results x,
      has-insert id x (not_checked id (world.before m.calls)) m.results,
      has-insert id x c m.checks,
    );
    counts = λ x.
        ground (arith, v.counts x, has-insert id x 0 m.check_counts, has-insert id x c m.checks);
    failures = λ x.
        ground
          (arith, v.failures x, has-insert id x 0 m.failure_counts, has-insert id x c m.checks);
    bounded = λ x. ground (
      arith,
      v.bounded x,
      lookup-insert id x 0 m.check_counts,
      lookup-insert id x 0 m.failure_counts,
    );
    timed = λ x.
        ground
          (arith, v.timed x, lookup-insert id x 0 m.check_counts, has-erase id x m.last_checked);
  })
]

pub unregister-IsConsistent :
    (id : String) (m : HealthMonitor) → IsConsistent m → IsConsistent (unregister id m)
unfolding unregister
unregister-IsConsistent id m v = record {
  results = λ x. ground (arith, v.results x, has-erase id x m.results, has-erase id x m.checks);
  counts = λ x. ground (arith, v.counts x, has-erase id x m.check_counts, has-erase id x m.checks);
  failures =
      λ x. ground (arith, v.failures x, has-erase id x m.failure_counts, has-erase id x m.checks);
  bounded = λ x.
      ground
        (arith, v.bounded x, lookup-erase id x m.check_counts, lookup-erase id x m.failure_counts);
  timed = λ x.
      ground (arith, v.timed x, lookup-erase id x m.check_counts, has-erase id x m.last_checked);
}

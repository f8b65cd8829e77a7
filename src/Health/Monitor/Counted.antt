-- ===== src/Health/Monitor/Counted.antt =====
-- `check` of core/health/monitor.py keeps a monitor consistent.
use core_host.Base.{
  ℕ, ◌+◌, ◌≤◌, ◌≡◌, refl, Bool, true, false, ◌&&◌, String, Option, none, some, List, [], ◌∷◌, ◌++◌,
  or_else, arith, eq_iff, ◌==◌, inl, inr, Option-cases, ltb, ◌<◌, eq_refl,
}
use core_host.Base.Dict.{lookup, insert, has, lookup-insert, has-insert}
use core_host.Health.Models.{
  HealthResult, HealthMonitor, World, Answer, returns, returns_other, raises, Check,
}
use core_host.Health.Monitor.{
  count_up, differs, notify, store, store_failure, judge, check_found, check_if, check,
}
use core_host.Health.Monitor.Consistent.{IsConsistent}

-- What holds between the count of a run and the storing of its result: only the time may be missing.
record IsCounted (id : String) (m : HealthMonitor) : Type 0 where
  there : has id m.checks ≡ true
  ran : ltb 0 (or_else (lookup id m.check_counts) 0) ≡ true
  results : (x : String) → has x m.results ≡ has x m.checks
  counts : (x : String) → has x m.check_counts ≡ has x m.checks
  failures : (x : String) → has x m.failure_counts ≡ has x m.checks
  bounded :
      (x : String) → or_else (lookup x m.failure_counts) 0 ≤ or_else (lookup x m.check_counts) 0
  timed :
      (x : String)
      → id == x ≡ false
      → has x m.last_checked ≡ ltb 0 (or_else (lookup x m.check_counts) 0)

notify-IsConsistent :
    (b : Bool) (r : HealthResult) (m : HealthMonitor) → IsConsistent m → IsConsistent (notify b r m)
notify-IsConsistent true r m v = record {
  results = v.results;
  counts = v.counts;
  failures = v.failures;
  bounded = v.bounded;
  timed = v.timed;
}
notify-IsConsistent false r m v = v

store-IsConsistent :
    (id : String) (t : ℕ) (r : HealthResult) (m : HealthMonitor)
    → IsCounted id m
    → IsConsistent (store id t r m).1
store-IsConsistent id t r m k =
    notify-IsConsistent (m.listens && differs (lookup id m.results) r.status) r _ (record {
      results = λ x. ground (arith, eq_iff id x, k.there, k.results x, has-insert id x r m.results);
      counts = k.counts;
      failures = k.failures;
      bounded = k.bounded;
      timed = λ x. ground (arith, eq_iff id x, k.ran, k.timed x, has-insert id x t m.last_checked);
    })

module _ (id : String) (m : HealthMonitor) where
  -- One more failure keeps the tables where the check ran more often than it failed.
  fail-IsCounted :
      (n : ℕ)
      → lookup id m.failure_counts ≡ some n
      → n < or_else (lookup id m.check_counts) 0
      → IsCounted id m
      → IsCounted id (record m { failure_counts = insert id (n + 1) m.failure_counts })
  fail-IsCounted n failed room k = record {
    there = k.there;
    ran = k.ran;
    results = k.results;
    counts = k.counts;
    failures = λ x.
        ground
          (arith, eq_iff id x, k.there, k.failures x, has-insert id x (n + 1) m.failure_counts);
    bounded = λ x.
        ground (arith, eq_iff id x, room, k.bounded x, lookup-insert id x (n + 1) m.failure_counts);
    timed = k.timed;
  }

  store_failure-IsConsistent :
      (t : ℕ) (r : HealthResult) (failed : Option ℕ)
      → lookup id m.failure_counts ≡ failed
      → or_else failed 0 < or_else (lookup id m.check_counts) 0
      → IsCounted id m
      → IsConsistent (store_failure id t r m (count_up id m.failure_counts failed)).1
  store_failure-IsConsistent t r none failed room k =
      absurd (unfold has in ground (arith, k.failures id, k.there))
  store_failure-IsConsistent t r (some n) failed room k =
      store-IsConsistent id t r (record m { failure_counts = insert id (n + 1) m.failure_counts })
        (fail-IsCounted n failed room k)

  judge-IsConsistent :
      (t now : ℕ) (a : Answer)
      → or_else (lookup id m.failure_counts) 0 < or_else (lookup id m.check_counts) 0
      → IsCounted id m
      → IsConsistent (judge id t now m a).1
  judge-IsConsistent t now (returns r) room k = store-IsConsistent id t r m k
  judge-IsConsistent t now returns_other room k =
      store_failure-IsConsistent t _ (lookup id m.failure_counts) refl room k
  judge-IsConsistent t now (raises text) room k =
      store_failure-IsConsistent t _ (lookup id m.failure_counts) refl room k

-- The count of a run, in a monitor where the component is registered.
count-IsCounted :
    (id : String) (c : Check) (calls : List Check) (m : HealthMonitor) (n : ℕ)
    → lookup id m.checks ≡ some c
    → lookup id m.check_counts ≡ some n
    → IsConsistent m
    → IsCounted id (record m { check_counts = insert id (n + 1) m.check_counts; calls = calls })
unfolding has
count-IsCounted id c calls m n there ran v = record {
  there = rw there refl;
  ran = ground (arith, eq_refl id, lookup-insert id id (n + 1) m.check_counts);
  results = v.results;
  counts = λ x. ground (arith, eq_iff id x, v.counts x, lookup-insert id x (n + 1) m.check_counts);
  failures = v.failures;
  bounded =
      λ x. ground (arith, eq_iff id x, v.bounded x, lookup-insert id x (n + 1) m.check_counts);
  timed = λ x other. ground (arith, v.timed x, lookup-insert id x (n + 1) m.check_counts);
}

-- A registered component has a count of its runs.
pub counted :
    (id : String) (c : Check) (m : HealthMonitor)
    → IsConsistent m
    → lookup id m.checks ≡ some c
    → (n : ℕ) × (lookup id m.check_counts ≡ some n)
unfolding has
counted id c m v there = elim (Option-cases (lookup id m.check_counts)) [
  | inl absent ↦ ground (arith, v.counts id)
  | inr present ↦ present
]

-- A registered component has a count of its failures.
pub failed_before :
    (id : String) (c : Check) (m : HealthMonitor)
    → IsConsistent m
    → lookup id m.checks ≡ some c
    → (n : ℕ) × (lookup id m.failure_counts ≡ some n)
unfolding has
failed_before id c m v there = elim (Option-cases (lookup id m.failure_counts)) [
  | inl absent ↦ ground (arith, v.failures id)
  | inr present ↦ present
]

check_found-IsConsistent :
    (world : World) (id : String) (m : HealthMonitor) (found : Option Check)
    → lookup id m.checks ≡ found
    → IsConsistent m
    → IsConsistent (check_found world id m found).1
check_found-IsConsistent world id m none found v = v
check_found-IsConsistent world id m (some c) found v =
    let (n, ran) = counted id c m v found in
    rw ran (
      judge-IsConsistent id
        (record m { check_counts = insert id (n + 1) m.check_counts; calls = m.calls ++ c ∷ [] })
        (world.before m.calls) (world.after m.calls) (world.answer m.calls c)
        (ground (arith, v.bounded id, eq_refl id, ran, lookup-insert id id (n + 1) m.check_counts))
        (count-IsCounted id c (m.calls ++ c ∷ []) m n found ran v))

check_if-IsConsistent :
    (active : Bool) (world : World) (id : String) (m : HealthMonitor)
    → IsConsistent m
    → IsConsistent (check_if active world id m).1
check_if-IsConsistent false world id m v = v
check_if-IsConsistent true world id m v =
    check_found-IsConsistent world id m (lookup id m.checks) refl v

pub check-IsConsistent :
    (world : World) (id : String) (m : HealthMonitor)
    → IsConsistent m
    → IsConsistent (check world id m).1
unfolding check
check-IsConsistent world id m v = check_if-IsConsistent m.active world id m v

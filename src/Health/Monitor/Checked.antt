-- ===== src/Health/Monitor/Checked.antt =====
-- `check` of core/health/monitor.py on a registered component.
use core_host.Base.{
  ℕ, ◌+◌, ◌≡◌, refl, Bool, true, false, ◌&&◌, String, some, [], ◌∷◌, ◌++◌, or_else, ok,
  if◌then◌else◌, arith, eq_iff, ◌==◌, append-nil, subst, sym, ap, ◌∙◌,
}
use Prim.Native.String.{◌++◌ as ◌<>◌}
use core_host.Base.Dict.{Dict, lookup, insert, lookup-insert}
use core_host.Health.Models.{
  Check, HealthResult, HealthMonitor, World, Answer, returns, returns_other, raises,
}
use core_host.Health.Monitor.{
  failure, count_up, differs, notify, store, judge, check_counted, check_found, check_if, check,
  check_count, failure_count, Checking,
}
use core_host.Health.Monitor.Consistent.{IsConsistent}
use core_host.Health.Monitor.Counted.{counted, failed_before}

-- The result that `check` makes of what the check does.
abbrev pub verdict : String → ℕ → Answer → HealthResult
verdict id now (returns r) = r
verdict id now returns_other = failure id "Health check returned an invalid result." now
verdict id now (raises text) = failure id ("Health check failed: " <> text) now

abbrev pub fails : Answer → ℕ
fails (returns r) = 0
fails returns_other = 1
fails (raises text) = 1

-- What a call of `check` for the component `id` does to the monitor `m`, where its check `c`
-- answers with `a`, and the clock shows `t` before that and `now` after it.
pub record HasChecked (id : String) (c : Check) (a : Answer) (t now : ℕ) (m : HealthMonitor)
    (called : Checking) : Type 0 where
  pub returned : called.0 ≡ ok (verdict id now a)
  pub stored : called.1.results ≡ insert id (verdict id now a) m.results
  pub time : called.1.last_checked ≡ insert id t m.last_checked
  pub runs : (x : String) → check_count x called.1 ≡ check_count x m + (if id == x then 1 else 0)
  pub failures :
      (x : String) → failure_count x called.1 ≡ failure_count x m + (if id == x then fails a else 0)
  pub calls : called.1.calls ≡ m.calls ++ c ∷ []
  pub notified :
      called.1.notified
      ≡ m.notified
        ++ (if m.listens && differs (lookup id m.results) (verdict id now a).status
            then verdict id now a ∷ []
            else [])
  pub checks : called.1.checks ≡ m.checks

-- `notify` adds to the notified results only.
abbrev SameTables : HealthMonitor → HealthMonitor → Type 0
SameTables m m' =
    (m'.results ≡ m.results)
    × (m'.last_checked ≡ m.last_checked)
    × (m'.check_counts ≡ m.check_counts)
    × (m'.failure_counts ≡ m.failure_counts)
    × (m'.calls ≡ m.calls)
    × (m'.checks ≡ m.checks)

notify-SameTables : (b : Bool) (r : HealthResult) (m : HealthMonitor) → SameTables m (notify b r m)
notify-SameTables true r m = (refl, refl, refl, refl, refl, refl)
notify-SameTables false r m = (refl, refl, refl, refl, refl, refl)

notified-notify :
    (b : Bool) (r : HealthResult) (m : HealthMonitor)
    → (notify b r m).notified ≡ m.notified ++ (if b then r ∷ [] else [])
notified-notify true r m = refl
notified-notify false r m = rw append-nil

-- The storing of a result, in the monitor in which the run is counted, and the failure if it is one.
module _ (id : String) (c : Check) (t now n : ℕ) (m : HealthMonitor)
    (ran : lookup id m.check_counts ≡ some n) where
  store_lem :
      (a : Answer) (counts : Dict ℕ)
      → ((x : String)
          → or_else (lookup x counts) 0 ≡ failure_count x m + (if id == x then fails a else 0))
      → HasChecked id c a t now m (
          store id t (verdict id now a) (record m {
            check_counts = insert id (n + 1) m.check_counts;
            calls = m.calls ++ c ∷ [];
            failure_counts = counts;
          }))
  unfolding check_count failure_count
  store_lem a counts failed =
      let r = verdict id now a in
      let before = record m {
        check_counts = insert id (n + 1) m.check_counts;
        calls = m.calls ++ c ∷ [];
        failure_counts = counts;
        results = insert id r m.results;
        last_checked = insert id t m.last_checked;
      } in
      let b = m.listens && differs (lookup id m.results) r.status in
      let (results, last, runs, failures, calls, checks) = notify-SameTables b r before in
      record {
        returned = refl;
        stored = results;
        time = last;
        runs = λ x.
            rw runs (ground (arith, eq_iff id x, ran, lookup-insert id x (n + 1) m.check_counts));
        failures = λ x. rw failures (failed x);
        calls = calls;
        notified = notified-notify b r before;
        checks = checks;
      }

  -- The failures with one more for the component.
  one_more :
      (f : ℕ)
      → lookup id m.failure_counts ≡ some f
      → (x : String)
      → or_else (lookup x (insert id (f + 1) m.failure_counts)) 0
        ≡ failure_count x m + (if id == x then 1 else 0)
  unfolding failure_count
  one_more f failed x =
      ground (arith, eq_iff id x, failed, lookup-insert id x (f + 1) m.failure_counts)

  judge_lem :
      (a : Answer) (f : ℕ)
      → lookup id m.failure_counts ≡ some f
      → HasChecked id c a t now m (
          judge id t now
            (record m {
              check_counts = insert id (n + 1) m.check_counts;
              calls = m.calls ++ c ∷ [];
            })
            a)
  judge_lem (returns r) f failed =
      store_lem (returns r) m.failure_counts (λ x. unfold failure_count in ground arith)
  judge_lem returns_other f failed =
      rw failed (store_lem returns_other (insert id (f + 1) m.failure_counts) (one_more f failed))
  judge_lem (raises text) f failed =
      rw failed (store_lem (raises text) (insert id (f + 1) m.failure_counts) (one_more f failed))

check-eq :
    (world : World) (id : String) (c : Check) (m : HealthMonitor)
    → m.active ≡ true
    → lookup id m.checks ≡ some c
    → {n : ℕ} → lookup id m.check_counts ≡ some n
    → check world id m
      ≡ judge id
          (world.before m.calls)
          (world.after m.calls)
          (record m { check_counts = insert id (n + 1) m.check_counts; calls = m.calls ++ c ∷ [] })
          (world.answer m.calls c)
unfolding check
check-eq world id c m on there ran =
    ap (λ b. check_if b world id m) on
    ∙ ap (check_found world id m) there
    ∙ ap (λ r. check_counted world id c m (count_up id m.check_counts r)) ran

-- For checks that do not use the monitor while they are called: on an active monitor with
-- consistent tables, `check` of a registered component returns the result that its check returned,
-- or an UNHEALTHY one where the check raised or returned something else. It stores the result and
-- the time, counts one more run of this component, and one more failure in the second case, and
-- notifies exactly where the status differs from the stored one. The rest of the tables is
-- unchanged.
pub check-HasChecked :
    (world : World) (id : String) (c : Check) (m : HealthMonitor)
    → IsConsistent m
    → m.active ≡ true
    → lookup id m.checks ≡ some c
    → HasChecked id c
        (world.answer m.calls c)
        (world.before m.calls)
        (world.after m.calls)
        m
        (check world id m)
check-HasChecked world id c m v on there =
    let (n, ran) = counted id c m v there in
    let (f, failed) = failed_before id c m v there in
    subst (HasChecked id c (world.answer m.calls c) (world.before m.calls) (world.after m.calls) m)
      (sym (check-eq world id c m on there ran))
      (judge_lem id c (world.before m.calls) (world.after m.calls) n m ran (world.answer m.calls c)
        f failed)

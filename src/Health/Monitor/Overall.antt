-- ===== src/Health/Monitor/Overall.antt =====
-- `overall_status` of core/health/monitor.py.
use core_host.Base.{
  ℕ, suc, ◌≤◌, ◌≡◌, ◌≢◌, refl, true, false, List, [], ◌∷◌, arith, inl, inr, Bool-cases,
  if◌then◌else◌,
}
use core_host.Base.Dict.{values}
use core_host.Health.Models.{
  HealthStatus, HealthResult, HealthMonitor, unknown, healthy, degraded, unhealthy,
}
use core_host.Health.Monitor.{same_status, any_with, overall_of, overall_status}

-- UNHEALTHY > DEGRADED > UNKNOWN > HEALTHY
abbrev pub severity : HealthStatus → ℕ
severity healthy = 0
severity unknown = 1
severity degraded = 2
severity unhealthy = 3

-- The status of one of the results.
abbrev pub IsAmong : HealthStatus → List HealthResult → Type 0
IsAmong s rs = any_with s rs ≡ true

-- No result has a status that is more severe.
abbrev pub IsAbove : ℕ → List HealthResult → Type 0
IsAbove n [] = Unit
IsAbove n (r ∷ rs) = (severity r.status ≤ n) × IsAbove n rs

abbrev pub IsWorst : HealthStatus → List HealthResult → Type 0
IsWorst s rs = IsAmong s rs × IsAbove (severity s) rs

same_status-severity : (s t : HealthStatus) → same_status s t ≡ false → severity s ≢ severity t
same_status-severity unknown unknown h = cc
same_status-severity healthy healthy h = cc
same_status-severity degraded degraded h = cc
same_status-severity unhealthy unhealthy h = cc
same_status-severity unknown healthy h = ground arith
same_status-severity unknown degraded h = ground arith
same_status-severity unknown unhealthy h = ground arith
same_status-severity healthy unknown h = ground arith
same_status-severity healthy degraded h = ground arith
same_status-severity healthy unhealthy h = ground arith
same_status-severity degraded unknown h = ground arith
same_status-severity degraded healthy h = ground arith
same_status-severity degraded unhealthy h = ground arith
same_status-severity unhealthy unknown h = ground arith
same_status-severity unhealthy healthy h = ground arith
same_status-severity unhealthy degraded h = ground arith

severity_bound : (s : HealthStatus) → severity s ≤ 3
severity_bound unknown = ground arith
severity_bound healthy = ground arith
severity_bound degraded = ground arith
severity_bound unhealthy = ground arith

any_bound : (rs : List HealthResult) → IsAbove 3 rs
any_bound [] = tt
any_bound (r ∷ rs) = (severity_bound r.status, any_bound rs)

-- A bound that no result reaches can be lowered.
lower :
    (s : HealthStatus) (n : ℕ) (rs : List HealthResult)
    → severity s ≡ suc n
    → any_with s rs ≡ false
    → IsAbove (suc n) rs
    → IsAbove n rs
unfolding any_with
lower s n [] same none_has tt = tt
lower s n (r ∷ rs) same none_has (here, there) =
    let apart = same_status-severity r.status s (ground arith) in
    (omega (arith, here, apart, same), lower s n rs same (ground arith) there)

all_healthy :
    (r : HealthResult) (rs : List HealthResult) → IsAbove 0 (r ∷ rs) → IsAmong healthy (r ∷ rs)
unfolding any_with
all_healthy r rs (here, there) = ground (arith, is_healthy r.status here)
  where
    is_healthy : (s : HealthStatus) → severity s ≤ 0 → same_status s healthy ≡ true
    is_healthy healthy h = refl
    is_healthy unknown h = ground arith
    is_healthy degraded h = ground arith
    is_healthy unhealthy h = ground arith

-- The tests of `overall_status`, in its order.
tests-IsWorst :
    (rs : List HealthResult)
    → (IsAbove 0 rs → IsAmong healthy rs)
    → IsWorst
        (if any_with unhealthy rs
          then unhealthy
          else if any_with degraded rs
          then degraded
          else if any_with unknown rs
          then unknown
          else healthy)
        rs
tests-IsWorst rs rest = elim (Bool-cases (any_with unhealthy rs)) [
  | inl u ↦ rw u (u, any_bound rs)
  | inr nu ↦
      let two = lower unhealthy 2 rs refl nu (any_bound rs) in
      elim (Bool-cases (any_with degraded rs)) [
        | inl d ↦ rw (nu, d) (d, two)
        | inr nd ↦
            let one = lower degraded 1 rs refl nd two in
            elim (Bool-cases (any_with unknown rs)) [
              | inl k ↦ rw (nu, nd, k) (k, one)
              | inr nk ↦
                  let none_left = lower unknown 0 rs refl nk one in
                  rw (nu, nd, nk) (rest none_left, none_left)
            ]
      ]
]

-- The most severe status of some results, and UNKNOWN of none.
abbrev pub IsOverall : HealthStatus → List HealthResult → Type 0
IsOverall s [] = s ≡ unknown
IsOverall s (r ∷ rs) = IsWorst s (r ∷ rs)

overall_of-IsOverall : (rs : List HealthResult) → IsOverall (overall_of rs) rs
overall_of-IsOverall [] = refl
overall_of-IsOverall (r ∷ rs) = tests-IsWorst (r ∷ rs) (all_healthy r rs)

-- `overall_status` is the status of one of the stored results, and no stored result has a more
-- severe one, in the order UNHEALTHY, DEGRADED, UNKNOWN, HEALTHY. With no result it is UNKNOWN.
pub overall_status-IsOverall : (m : HealthMonitor) → IsOverall (overall_status m) (values m.results)
unfolding overall_status
overall_status-IsOverall m = overall_of-IsOverall (values m.results)

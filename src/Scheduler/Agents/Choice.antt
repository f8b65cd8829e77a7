-- ===== src/Scheduler/Agents/Choice.antt =====
-- `find_suitable_agent` of core/scheduler/scheduler.py: which profile it returns.
use core_host.Base.{
  ℕ, ◌≤◌, ◌<◌, ◌≡◌, refl, false, String, Option, none, some, List, [], ◌∷◌, ltb, inl, inr, All,
  All-map, Bool-cases, arith, eq_iff, eq_refl,
}
use core_host.Base.Dict.{Dict, lookup, has, IsDistinct}
use core_host.Base.Sorted.{All-sort_by, from-sort_by, Descends, sort_by-Descends}
use core_host.Resources.Models.{Resource}
use core_host.Scheduler.Models.{AgentProfile}
use core_host.Scheduler.Profiles.{
  AgentScheduler, count_of, score, at_capacity, candidates, before_or_same, ranked, if_room,
  fallback, first_or_fallback, find_best,
}

-- A registered profile that takes one more assignment.
pub record HasRoom (s : AgentScheduler) (d : Dict AgentProfile) (p : AgentProfile) : Type 0 where
  pub pid : String
  pub registered : lookup pid d ≡ some p
  pub room : count_of s pid < p.max_assignments

module _ (s : AgentScheduler) (device : Resource) where
  HasRoom-cons :
      (j : String) (q p : AgentProfile) (d : Dict AgentProfile)
      → has j d ≡ false
      → HasRoom s d p
      → HasRoom s ((j, q) ∷ d) p
  unfolding has lookup
  HasRoom-cons j q p d new h = record {
    pid = h.pid;
    registered = ground (arith, h.registered, eq_iff j h.pid);
    room = h.room;
  }

  abbrev Stands : Dict AgentProfile → ℕ × AgentProfile → Type 0
  Stands d (n, p) = (n ≡ score p device) × HasRoom s d p

  Stands-cons :
      (j : String) (q : AgentProfile) (d : Dict AgentProfile)
      → has j d ≡ false
      → (c : ℕ × AgentProfile) → Stands d c
      → Stands ((j, q) ∷ d) c
  Stands-cons j q d new (n, p) (same, h) = (same, HasRoom-cons j q p d new h)

  first_HasRoom :
      (pid : String) (p : AgentProfile) (d : Dict AgentProfile)
      → at_capacity s pid p ≡ false
      → HasRoom s ((pid, p) ∷ d) p
  unfolding lookup
  first_HasRoom pid p d room = record { pid = pid; registered = rw eq_refl; room = ground arith }

  candidates_sound : (d : Dict AgentProfile) → IsDistinct d → All (Stands d) (candidates s device d)
  unfolding candidates
  candidates_sound [] h = tt
  candidates_sound ((pid, p) ∷ d) (new, h) =
      let rest =
        All-map {Q = Stands ((pid, p) ∷ d)} (Stands-cons pid p d new) (candidates s device d)
          (candidates_sound d h) in
      elim (Bool-cases (at_capacity s pid p)) [
        | inl full ↦ rw full rest
        | inr room ↦ elim (Bool-cases (ltb 0 (score p device))) [
          | inl some_score ↦ rw (room, some_score) ((refl, first_HasRoom pid p d room), rest)
          | inr no_score ↦ rw (room, no_score) rest
        ]
      ]

  candidates_complete :
      (d : Dict AgentProfile) (pid : String) (p : AgentProfile) (bound : ℕ)
      → lookup pid d ≡ some p
      → count_of s pid < p.max_assignments
      → All (λ c. c.0 ≤ bound) (candidates s device d)
      → score p device ≤ bound
  unfolding candidates lookup
  candidates_complete [] pid p bound found room all = cc
  candidates_complete ((j, q) ∷ d) pid p bound found room all =
      ground (arith, eq_iff j pid, candidates_complete d pid p bound)

ranked-Descends : (cs : List (ℕ × AgentProfile)) → Descends (λ c. c.0) (ranked cs)
unfolding ranked
ranked-Descends =
    sort_by-Descends (λ x y. before_or_same y x) (λ c. c.0) (λ x y h. ground arith)
      (λ x y h. ground arith)

-- No registered profile with room has a higher score.
abbrev IsAtMost : AgentScheduler → Resource → ℕ → Type 0
IsAtMost s device bound =
    (pid : String) (q : AgentProfile)
    → lookup pid s.profiles ≡ some q
    → count_of s pid < q.max_assignments
    → score q device ≤ bound

-- A profile with room of the highest score; or none, where no profile with room has a score and
-- `asis-local` is not one of them.
abbrev pub IsBest : AgentScheduler → Resource → Option AgentProfile → Type 0
IsBest s device (some p) = HasRoom s s.profiles p × IsAtMost s device (score p device)
IsBest s device none =
    IsAtMost s device 0
    × ((q : AgentProfile)
        → lookup "asis-local" s.profiles ≡ some q
        → ¬ (count_of s "asis-local" < q.max_assignments))

module _ (s : AgentScheduler) (device : Resource) (distinct : IsDistinct s.profiles) where
  at_most :
      (bound : ℕ)
      → All (λ c. c.0 ≤ bound) (ranked (candidates s device s.profiles))
      → IsAtMost s device bound
  unfolding ranked
  at_most bound h pid q found room =
      candidates_complete s device s.profiles pid q bound found room (
        from-sort_by (λ x y. before_or_same y x) (λ c. c.0 ≤ bound) (candidates s device s.profiles)
          h)

  if_room-IsBest :
      IsAtMost s device 0
      → (o : Option AgentProfile) → lookup "asis-local" s.profiles ≡ o
      → IsBest s device (if_room s o)
  if_room-IsBest low none found = (low, λ q there. cc)
  if_room-IsBest low (some p) found =
      elim (Bool-cases (ltb (count_of s "asis-local") p.max_assignments)) [
        | inl room ↦ rw room (
          record { pid = "asis-local"; registered = found; room = ground arith },
          λ pid q there has_room. omega (arith, low pid q there has_room),
        )
        | inr full ↦ rw full (low, λ q there has_room. let same : q ≡ p = cc in ground arith)
      ]

  choice_IsBest :
      (cs : List (ℕ × AgentProfile))
      → All (Stands s device s.profiles) cs
      → Descends (λ c. c.0) cs
      → (All (λ c. c.0 ≤ 0) cs → IsAtMost s device 0)
      → ((bound : ℕ) → All (λ c. c.0 ≤ bound) cs → IsAtMost s device bound)
      → IsBest s device (first_or_fallback s cs)
  choice_IsBest [] sound falls low all =
      unfold fallback in if_room-IsBest (low tt) (lookup "asis-local" s.profiles) refl
  choice_IsBest ((n, p) ∷ r) ((same, room), sound) (below, falls) low all =
      (room, rw (← same) (all n (omega arith, below)))

  -- `find_suitable_agent` with no profile given returns a registered profile with room whose score
  -- no other profile with room exceeds. It returns None only where no profile with room has a
  -- score above 0, and `asis-local` is not registered or has no room.
  pub find_best-IsBest : IsBest s device (find_best device s)
  unfolding find_best
  find_best-IsBest =
      choice_IsBest (ranked (candidates s device s.profiles))
        (unfold ranked in
          All-sort_by (λ x y. before_or_same y x) (Stands s device s.profiles)
            (candidates s device s.profiles) (candidates_sound s device s.profiles distinct))
        (ranked-Descends (candidates s device s.profiles)) (at_most 0) at_most

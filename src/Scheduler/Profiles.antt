-- ===== src/Scheduler/Profiles.antt =====
-- The profiles of `AgentScheduler` in core/scheduler/scheduler.py, and the choice of one for a device
-- that is a `Resource`.
use core_host.Base.{
  ℕ, Bool, true, false, String, Option, none, some, List, [], ◌∷◌, or_else, leb, ltb, if◌then◌else◌,
  Result, ok, err,
}
use core_host.Base.Dict.{Dict, lookup, insert, erase, has}
use core_host.Base.Sorted.{sort_by, text_le}
use core_host.Resources.Models.{Resource}
use core_host.Scheduler.Models.{AgentProfile, Assignment, score_for}

-- `value_error` is that of `create_agent_resource`.
pub data SchedulerError : Type 0 where
  profile_already_registered profile_not_found : String → SchedulerError
  assignment_not_found no_suitable_agent : String → SchedulerError
  value_error : SchedulerError

pub record AgentScheduler : Type 0 where
  pub profiles : Dict AgentProfile
  pub assignments : Dict Assignment
  pub agent_resources : Dict Resource
  pub profile_assignment_counts : Dict ℕ

abbrev pub add_profile : AgentProfile → AgentScheduler → AgentScheduler
add_profile p s = record s {
  profiles = insert p.profile_id p s.profiles;
  profile_assignment_counts = insert p.profile_id 0 s.profile_assignment_counts;
}

unfoldable pub register_profile :
    AgentProfile → AgentScheduler → Result SchedulerError AgentProfile × AgentScheduler
register_profile p s =
    if has p.profile_id s.profiles
    then (err (profile_already_registered p.profile_id), s)
    else (ok p, add_profile p s)

abbrev pub unregister_found :
    String
    → AgentScheduler
    → Option AgentProfile
    → Result SchedulerError AgentProfile × AgentScheduler
unregister_found profile_id s none = (err (profile_not_found profile_id), s)
unregister_found profile_id s (some p) = (
  ok p,
  record s {
    profiles = erase profile_id s.profiles;
    profile_assignment_counts = erase profile_id s.profile_assignment_counts;
  },
)

unfoldable pub unregister_profile :
    String → AgentScheduler → Result SchedulerError AgentProfile × AgentScheduler
unregister_profile profile_id s = unregister_found profile_id s (lookup profile_id s.profiles)

-- `self._profile_assignment_counts.get(pid, 0)`
abbrev pub count_of : AgentScheduler → String → ℕ
count_of s pid = or_else (lookup pid s.profile_assignment_counts) 0

-- `device.metadata.get(key, default)`
abbrev pub metadata_or : Resource → String → String → Option String
metadata_or device k d = or_else (lookup k device.metadata) (some d)

unfoldable pub score : AgentProfile → Resource → ℕ
score p device =
    score_for p device.capabilities (metadata_or device "device_type" "generic")
      (metadata_or device "platform" "unknown")

abbrev pub at_capacity : AgentScheduler → String → AgentProfile → Bool
at_capacity s pid p = leb p.max_assignments (count_of s pid)

-- The loop over all profiles.
unfoldable pub candidates : AgentScheduler → Resource → Dict AgentProfile → List (ℕ × AgentProfile)
candidates s device [] = []
candidates s device ((pid, p) ∷ d) =
    let rest = candidates s device d in
    if at_capacity s pid p
    then rest
    else if ltb 0 (score p device)
    then (score p device, p) ∷ rest
    else rest

-- `x[0] < y[0] or x[0] == y[0] and x[1].profile_id <= y[1].profile_id`
abbrev pub before_or_same : ℕ × AgentProfile → ℕ × AgentProfile → Bool
before_or_same (m, p) (n, q) =
    if ltb m n then true else if ltb n m then false else text_le p.profile_id q.profile_id

-- `candidates.sort(..., reverse=True)`
unfoldable pub ranked : List (ℕ × AgentProfile) → List (ℕ × AgentProfile)
ranked = sort_by (λ x y. before_or_same y x)

abbrev pub if_room : AgentScheduler → Option AgentProfile → Option AgentProfile
if_room s none = none
if_room s (some p) = if ltb (count_of s "asis-local") p.max_assignments then some p else none

-- The profile `asis-local`, where no profile has a score.
unfoldable pub fallback : AgentScheduler → Option AgentProfile
fallback s = if_room s (lookup "asis-local" s.profiles)

abbrev pub first_or_fallback : AgentScheduler → List (ℕ × AgentProfile) → Option AgentProfile
first_or_fallback s [] = fallback s
first_or_fallback s ((n, p) ∷ r) = some p

-- `find_suitable_agent` with no `profile_id`, and with one.
unfoldable pub find_best : Resource → AgentScheduler → Option AgentProfile
find_best device s = first_or_fallback s (ranked (candidates s device s.profiles))

unfoldable pub find_named : Resource → String → AgentScheduler → Option AgentProfile
find_named device pid s = elim (lookup pid s.profiles) [
  | none ↦ none
  | some p ↦ if at_capacity s pid p then none else if leb (score p device) 0 then none else some p
]

unfoldable pub find_suitable_agent : Resource → Option String → AgentScheduler → Option AgentProfile
unfolding find_best find_named
find_suitable_agent device none s = find_best device s
find_suitable_agent device (some pid) s = find_named device pid s

-- A scheduler with no profile.
abbrev pub bare : AgentScheduler
bare = record {
  profiles = [];
  assignments = [];
  agent_resources = [];
  profile_assignment_counts = [];
}

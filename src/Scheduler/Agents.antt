-- ===== src/Scheduler/Agents.antt =====
-- The assignments of `AgentScheduler` in core/scheduler/scheduler.py. The random part of a new
-- agent's id and the times are arguments.
pub mod Defaults
pub mod Choice
pub mod Capacity
pub mod Accounting
use Prim.Native.String.{◌++◌ as ◌<>◌}
use core_host.Base.{
  ℕ, zero, ◌+◌, ◌-◌, Bool, true, false, ◌&&◌, not, String, Option, none, some, List, [], ◌∷◌,
  length, or_else, leb, ltb, if◌then◌else◌, Result, ok, err, ◌==◌,
}
use core_host.Base.Dict.{Dict, lookup, insert, erase, has, values}
use core_host.Base.Sorted.{sort_by, text_le}
use core_host.Resources.Models.{Resource, create_agent_resource}
use core_host.Scheduler.Models.{AgentProfile, Assignment, score_for}
use core_host.Scheduler.Profiles.{
  SchedulerError, AgentScheduler, add_profile, register_profile, unregister_found,
  unregister_profile, count_of, metadata_or, score, at_capacity, candidates, before_or_same, ranked,
  if_room, fallback, first_or_fallback, find_best, find_named, find_suitable_agent, bare,
  profile_already_registered, profile_not_found, assignment_not_found, no_suitable_agent,
  value_error,
}

-- What a call of `assign` takes from outside: the clock and the random part of an id.
pub record Outside : Type 0 where
  pub now : ℕ
  pub now_text : String
  pub random : String

-- `agent_id or f"agent-{device.resource_id}-{...}"`
unfoldable pub agent_id_or : Option String → Outside → Resource → String
agent_id_or agent_id o device =
    let made = "agent-" <> (device.resource_id <> ("-" <> o.random)) in
    elim agent_id [ none ↦ made | some a ↦ if a == "" then made else a ]

-- The assignment, if there is one and its agent is still there.
abbrev pub existing_for : String → AgentScheduler → Option (Resource × Assignment)
existing_for device_id s = elim (lookup device_id s.assignments) [
  | none ↦ none
  | some a ↦ elim (lookup a.agent_id s.agent_resources) [
    | none ↦ none
    | some agent ↦ some (agent, a)
  ]
]

-- `self._assignments.pop(device.resource_id, None)` of a stale assignment.
abbrev pub clear_stale : String → AgentScheduler → AgentScheduler
clear_stale device_id s = record s { assignments = erase device_id s.assignments }

unfoldable pub new_agent :
    Outside → AgentProfile → Resource → String → Result SchedulerError Resource
new_agent o p device aid =
    elim (create_agent_resource o.now o.now_text aid (p.name <> (" for " <> device.name))
      p.agent_type p.version p.host (some device.resource_id) "running" p.capabilities
      (insert "platform" (or_else (lookup "platform" device.metadata) none) (
        insert "device_type" (or_else (lookup "device_type" device.metadata) none)
          (insert "profile_id" (some p.profile_id) p.metadata)))) [
            | ok agent ↦ ok agent
            | err e ↦ err value_error
          ]

-- The rest of `assign`, with the new agent.
unfoldable pub record_assignment :
    Outside
    → AgentProfile
    → Resource
    → String
    → Resource
    → AgentScheduler
    → Assignment × AgentScheduler
record_assignment o p device aid agent s =
    let a : Assignment = record {
      device_id = device.resource_id;
      agent_id = aid;
      profile_id = p.profile_id;
      assigned_at = o.now;
    } in
    (
      a,
      record s {
        agent_resources = insert aid agent s.agent_resources;
        assignments = insert device.resource_id a s.assignments;
        profile_assignment_counts =
            insert p.profile_id (count_of s p.profile_id + 1) s.profile_assignment_counts;
      },
    )

abbrev pub Assigned : Type 0
Assigned = Result SchedulerError (Resource × Assignment) × AgentScheduler

abbrev pub assign_made :
    Outside
    → AgentProfile
    → Resource
    → String
    → AgentScheduler
    → Result SchedulerError Resource
    → Assigned
assign_made o p device aid s (err e) = (err e, s)
assign_made o p device aid s (ok agent) =
    let (a, s') = record_assignment o p device aid agent s in (ok (agent, a), s')

-- An assignment whose agent is there is returned as it is.
abbrev pub assign_unless :
    Outside
    → AgentProfile
    → Resource
    → Option String
    → AgentScheduler
    → Option (Resource × Assignment)
    → Assigned
assign_unless o p device agent_id s (some found) = (ok found, s)
assign_unless o p device agent_id s none =
    let aid = agent_id_or agent_id o device in
    assign_made o p device aid (clear_stale device.resource_id s) (new_agent o p device aid)

abbrev pub assign_chosen :
    Outside → Resource → Option String → AgentScheduler → Option AgentProfile → Assigned
assign_chosen o device agent_id s none = (err (no_suitable_agent device.resource_id), s)
assign_chosen o device agent_id s (some p) =
    assign_unless o p device agent_id s (existing_for device.resource_id s)

unfoldable pub assign :
    Outside → Resource → Option String → Option String → AgentScheduler → Assigned
assign o device profile_id agent_id s =
    assign_chosen o device agent_id s (find_suitable_agent device profile_id s)

unfoldable pub get_assignment : String → AgentScheduler → Result SchedulerError Assignment
get_assignment device_id s = elim (lookup device_id s.assignments) [
  | none ↦ err (assignment_not_found device_id)
  | some a ↦ ok a
]

unfoldable pub get_agent : String → AgentScheduler → Result SchedulerError Resource
get_agent agent_id s = elim (lookup agent_id s.agent_resources) [
  | none ↦ err (assignment_not_found agent_id)
  | some a ↦ ok a
]

-- `max(0, count - 1)`, where there is a count
abbrev pub decrement : String → Dict ℕ → Option ℕ → Dict ℕ
decrement pid counts none = counts
decrement pid counts (some n) = insert pid (n - 1) counts

abbrev pub release_found :
    String → AgentScheduler → Option Assignment → Result SchedulerError Assignment × AgentScheduler
release_found device_id s none = (err (assignment_not_found device_id), s)
release_found device_id s (some a) = (
  ok a,
  record s {
    assignments = erase device_id s.assignments;
    profile_assignment_counts =
        decrement a.profile_id s.profile_assignment_counts
          (lookup a.profile_id s.profile_assignment_counts);
    agent_resources = erase a.agent_id s.agent_resources;
  },
)

unfoldable pub release : String → AgentScheduler → Result SchedulerError Assignment × AgentScheduler
release device_id s = release_found device_id s (lookup device_id s.assignments)

-- The counts with every number 0.
abbrev pub reset : Dict ℕ → Dict ℕ
reset [] = []
reset ((pid, n) ∷ d) = (pid, 0) ∷ reset d

unfoldable pub clear : AgentScheduler → AgentScheduler
clear s = record s {
  assignments = [];
  agent_resources = [];
  profile_assignment_counts = reset s.profile_assignment_counts;
}

-- The calls that change the scheduler.
pub data Op : Type 0 where
  register : AgentProfile → Op
  unregister : String → Op
  give : Outside → Resource → Option String → Option String → Op
  take_back : String → Op
  clear_all : Op

unfoldable pub step : Op → AgentScheduler → AgentScheduler
step (register p) s = (register_profile p s).1
step (unregister pid) s = (unregister_profile pid s).1
step (give o device pid aid) s = (assign o device pid aid s).1
step (take_back device_id) s = (release device_id s).1
step clear_all s = clear s

unfoldable pub run : List Op → AgentScheduler → AgentScheduler
unfolding step
run [] s = s
run (op ∷ ops) s = run ops (step op s)

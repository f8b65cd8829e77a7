-- ===== src/Scheduler/Examples.antt =====
-- A scheduler with two profiles and two devices, and what the methods of
-- core/scheduler/scheduler.py do with them.
use core_host.Base.{
  ◌+◌, ◌≡◌, refl, true, false, none, some, List, [], ◌∷◌, elem, add, to_set, ok, arith,
}
use core_host.Base.Dict.{lookup, insert, erase, has}
use core_host.Base.Sorted.{sort_by}
use core_host.Resources.Models.{Resource, set_default, set_given, create_agent_resource}
use core_host.Scheduler.Models.{AgentProfile, Assignment, shared, score_for}
use core_host.Scheduler.Profiles.{
  AgentScheduler, count_of, score, candidates, ranked, fallback, find_best, find_named,
  find_suitable_agent, register_profile, unregister_profile, bare,
}
use core_host.Scheduler.Agents.{
  Outside, agent_id_or, new_agent, record_assignment, assign, release, clear, Op, register, give,
  take_back, step, run,
}
use core_host.Scheduler.Agents.Choice.{IsBest, find_best-IsBest}
use core_host.Scheduler.Agents.Defaults.{init}
use core_host.Scheduler.Agents.Capacity.{IsWithin, run-IsWithin}
use core_host.Scheduler.Agents.Accounting.{
  held, IsAccurate, assign-IsAccurate, release-IsAccurate, assign_drifts,
}

-- Everything that a run computes with.
program : Unit {0}
unfolding run step register_profile unregister_profile assign release clear record_assignment
    new_agent agent_id_or find_suitable_agent find_best find_named fallback ranked candidates score
    score_for shared create_agent_resource set_default set_given lookup insert erase has elem add
    to_set sort_by
program = tt

abbrev local : AgentProfile
local = record {
  profile_id = "asis-local";
  name = "Local";
  agent_type = "local";
  version = "0.2.1";
  host = "windows-host";
  capabilities = "inference" ∷ "voice" ∷ [];
  supported_device_types = [];
  supported_platforms = [];
  max_assignments = 100;
  metadata = [];
}

abbrev offload : AgentProfile
offload = record local {
  profile_id = "asis-offload";
  name = "Offload";
  agent_type = "offload";
  capabilities = "offload" ∷ "inference" ∷ "gps" ∷ [];
  supported_device_types = "phone" ∷ "watch" ∷ [];
  supported_platforms = "ios" ∷ [];
  max_assignments = 50;
}

abbrev phone : Resource
phone = record {
  resource_id = "d1";
  name = "Phone";
  resource_type = "device";
  status = "online";
  owner = none;
  source = none;
  capabilities = "gps" ∷ "inference" ∷ [];
  metadata = ("device_type", some "phone") ∷ ("platform", some "ios") ∷ [];
  connection_info = [];
  last_seen = none;
  registered_at = 0;
}

abbrev watch : Resource
watch = record phone { resource_id = "d2"; name = "Watch" }

abbrev outside : Outside
outside = record { now = 5; now_text = "now"; random = "r1" }

abbrev profiles_only : AgentScheduler
profiles_only = record bare {
  profiles = ("asis-local", local) ∷ ("asis-offload", offload) ∷ [];
  profile_assignment_counts = ("asis-local", 0) ∷ ("asis-offload", 0) ∷ [];
}

find_best-phone : find_best phone profiles_only ≡ some offload
unfolding program
find_best-phone = refl

-- Both devices are given the same agent id, and the first one is released.
abbrev script : List Op
script =
    register local
    ∷ register offload
    ∷ give outside phone none (some "a")
    ∷ give outside watch none (some "a")
    ∷ take_back "d1"
    ∷ []

abbrev old : Assignment
old = record { device_id = "d2"; agent_id = "a"; profile_id = "asis-offload"; assigned_at = 5 }

abbrev stale : AgentScheduler
stale = record bare {
  profiles = ("asis-local", local) ∷ ("asis-offload", offload) ∷ [];
  assignments = ("d2", old) ∷ [];
  profile_assignment_counts = ("asis-local", 0) ∷ ("asis-offload", 1) ∷ [];
}

run-script : run script bare ≡ stale
unfolding program
run-script = refl

abbrev agent : Resource
agent = record {
  resource_id = "b";
  name = "Offload for Watch";
  resource_type = "agent";
  status = "running";
  owner = none;
  source = none;
  capabilities = "offload" ∷ "inference" ∷ "gps" ∷ [];
  metadata =
      ("profile_id", some "asis-offload")
      ∷ ("device_type", some "phone")
      ∷ ("platform", some "ios")
      ∷ ("agent_type", some "offload")
      ∷ ("version", some "0.2.1")
      ∷ ("host", some "windows-host")
      ∷ ("target_device", some "d2")
      ∷ ("start_time", some "now")
      ∷ [];
  connection_info = [];
  last_seen = none;
  registered_at = 5;
}

new_agent-watch : new_agent outside offload watch (agent_id_or (some "b") outside watch) ≡ ok agent
unfolding program
new_agent-watch = refl

find_suitable_agent-stale : find_suitable_agent watch none stale ≡ some offload
unfolding program
find_suitable_agent-stale = refl

lookup-stale :
    (lookup "d2" stale.assignments ≡ some old) × (lookup "a" stale.agent_resources ≡ none)
unfolding program
lookup-stale = (refl, refl)

find_best-IsBest_example : IsBest profiles_only phone (find_best phone profiles_only)
find_best-IsBest_example = find_best-IsBest profiles_only phone (distinct, (empty_distinct, tt))
  where
    distinct : has "asis-local" (("asis-offload", offload) ∷ []) ≡ false
    distinct = unfold program in refl

    empty_distinct : has {V = AgentProfile} "asis-offload" [] ≡ false
    empty_distinct = unfold program in refl

run-IsWithin_example : IsWithin (run script init)
run-IsWithin_example = run-IsWithin script

profiles_only-IsAccurate : IsAccurate profiles_only
unfolding has lookup held
profiles_only-IsAccurate = record {
  distinct = tt;
  counted = λ pid known. ground arith;
  backed = λ d a found. cc;
  own = λ d e a b found_d found_e same. cc;
}

known_profiles :
    (p : AgentProfile)
    → find_suitable_agent phone none profiles_only ≡ some p
    → has p.profile_id profiles_only.profile_assignment_counts ≡ true
unfolding program
known_profiles p chosen = let same : offload ≡ p = cc in rw (← same) refl

fresh_id : has (agent_id_or none outside phone) profiles_only.agent_resources ≡ false
unfolding has lookup
fresh_id = refl

assign-IsAccurate_example : IsAccurate (assign outside phone none none profiles_only).1
assign-IsAccurate_example =
    assign-IsAccurate profiles_only outside phone none none profiles_only-IsAccurate known_profiles
      fresh_id

release-IsAccurate_example :
    IsAccurate (release "d1" (assign outside phone none none profiles_only).1).1
release-IsAccurate_example =
    release-IsAccurate (assign outside phone none none profiles_only).1 "d1"
      assign-IsAccurate_example

assign_drifts_example :
    let s' = (assign outside watch none (some "b") stale).1 in
    (count_of s' "asis-offload" ≡ count_of stale "asis-offload" + 1)
    × (held "asis-offload" s'.assignments ≡ held "asis-offload" stale.assignments)
assign_drifts_example =
    assign_drifts stale outside watch none (some "b") old offload agent
      (unfold has lookup in (refl, tt)) lookup-stale.0 lookup-stale.1 find_suitable_agent-stale refl
      new_agent-watch

-- ===== src/Scheduler/Agents/Capacity.antt =====
-- `AgentScheduler` of core/scheduler/scheduler.py never counts more assignments of a profile than
-- the profile allows.
use core_host.Base.{
  ℕ, ◌+◌, ◌-◌, ◌≤◌, ◌≡◌, refl, String, Option, none, some, List, [], ◌∷◌, inl, inr, Bool-cases,
  Option-cases, or_else, arith, eq_iff, Result, ok, err,
}
use core_host.Base.Dict.{
  Dict, lookup, has, IsDistinct, lookup-insert, lookup-erase, insert-IsDistinct, erase-IsDistinct,
}
use core_host.Resources.Models.{Resource}
use core_host.Scheduler.Models.{AgentProfile, Assignment}
use core_host.Scheduler.Profiles.{
  AgentScheduler, SchedulerError, count_of, find_named, find_suitable_agent, register_profile,
  unregister_profile, unregister_found, bare, add_profile,
}
use core_host.Scheduler.Agents.{
  Outside, assign, new_agent, assign_made, assign_unless, release_found, record_assignment,
  existing_for, clear_stale, agent_id_or, decrement, release, reset, clear, Op, register,
  unregister, give, take_back, clear_all, step, run,
}
use core_host.Scheduler.Agents.Defaults.{defaults, add_profiles, init}
use core_host.Scheduler.Agents.Choice.{HasRoom, find_best-IsBest}

pub record IsWithin (s : AgentScheduler) : Type 0 where
  pub distinct : IsDistinct s.profiles
  pub own_id :
      (pid : String) (p : AgentProfile) → lookup pid s.profiles ≡ some p → p.profile_id ≡ pid
  pub within :
      (pid : String) (p : AgentProfile)
      → lookup pid s.profiles ≡ some p
      → count_of s pid ≤ p.max_assignments

-- Whichever profile `find_suitable_agent` returns has room.
pub find_suitable_agent-HasRoom :
    (s : AgentScheduler) (device : Resource) (profile_id : Option String) (p : AgentProfile)
    → IsDistinct s.profiles
    → find_suitable_agent device profile_id s ≡ some p
    → HasRoom s s.profiles p
unfolding find_suitable_agent
find_suitable_agent-HasRoom s device none p d h = (rw h at (find_best-IsBest s device d)).0
find_suitable_agent-HasRoom s device (some pid) p d h =
    unfold find_named in
    elim (Option-cases (lookup pid s.profiles)) [
      | inl absent ↦ ground arith
      | inr (q, found) ↦ record { pid = pid; registered = ground arith; room = ground arith }
    ]

decrement-le :
    (pid q : String) (d : Dict ℕ) (o : Option ℕ)
    → lookup pid d ≡ o
    → or_else (lookup q (decrement pid d o)) 0 ≤ or_else (lookup q d) 0
decrement-le pid q d none h = omega arith
decrement-le pid q d (some n) h = ground (arith, lookup-insert pid q (n - 1) d, eq_iff pid q)

lookup-reset : (q : String) (d : Dict ℕ) → or_else (lookup q (reset d)) 0 ≡ 0
unfolding lookup
lookup-reset q [] = refl
lookup-reset q ((pid, n) ∷ d) = ground (arith, lookup-reset q d)

module _ (s : AgentScheduler) (v : IsWithin s) where
  made_IsWithin :
      (o : Outside) (p : AgentProfile) (device : Resource) (aid : String)
      → HasRoom s s.profiles p
      → (r : Result SchedulerError Resource)
      → IsWithin (assign_made o p device aid (clear_stale device.resource_id s) r).1
  unfolding record_assignment
  made_IsWithin o p device aid room (err e) = record {
    distinct = v.distinct;
    own_id = v.own_id;
    within = v.within;
  }
  made_IsWithin o p device aid room (ok agent) =
      let id : p.profile_id ≡ room.pid = v.own_id room.pid p room.registered in
      record {
        distinct = v.distinct;
        own_id = v.own_id;
        within = λ q r found. rw id (
            ground (
              arith,
              lookup-insert room.pid q (count_of s room.pid + 1) s.profile_assignment_counts,
              eq_iff room.pid q,
              v.within q r found,
              room.room,
              room.registered,
            ));
      }

  unless_IsWithin :
      (o : Outside) (p : AgentProfile) (device : Resource) (agent_id : Option String)
      → HasRoom s s.profiles p
      → (e : Option (Resource × Assignment)) → IsWithin (assign_unless o p device agent_id s e).1
  unless_IsWithin o p device agent_id room (some found) = v
  unless_IsWithin o p device agent_id room none =
      let aid = agent_id_or agent_id o device in
      made_IsWithin o p device aid room (new_agent o p device aid)

  assign-IsWithin :
      (o : Outside) (device : Resource) (pid aid : Option String)
      → IsWithin (assign o device pid aid s).1
  unfolding assign
  assign-IsWithin o device pid aid = elim (Option-cases (find_suitable_agent device pid s)) [
    | inl absent ↦ rw absent v
    | inr (p, found) ↦ rw found (
        unless_IsWithin o p device aid (find_suitable_agent-HasRoom s device pid p v.distinct found)
          (existing_for device.resource_id s))
  ]

  released_IsWithin :
      (device_id : String) (o : Option Assignment) → IsWithin (release_found device_id s o).1
  released_IsWithin device_id none = v
  released_IsWithin device_id (some a) = record {
    distinct = v.distinct;
    own_id = v.own_id;
    within = λ q p found. omega (
      arith,
      v.within q p found,
      decrement-le a.profile_id q s.profile_assignment_counts
          (lookup a.profile_id s.profile_assignment_counts) refl,
    );
  }

  unregistered_IsWithin :
      (pid : String) (o : Option AgentProfile) → IsWithin (unregister_found pid s o).1
  unregistered_IsWithin pid none = v
  unregistered_IsWithin pid (some a) = record {
    distinct = erase-IsDistinct pid s.profiles v.distinct;
    own_id = λ q p found. ground (arith, lookup-erase pid q s.profiles, v.own_id q p);
    within = λ q p found. ground (
      arith,
      lookup-erase pid q s.profiles,
      lookup-erase pid q s.profile_assignment_counts,
      v.within q p,
    );
  }

  add-IsWithin : (p : AgentProfile) → IsWithin (add_profile p s)
  add-IsWithin p = record {
    distinct = insert-IsDistinct p.profile_id p s.profiles v.distinct;
    own_id = λ q r found.
        ground
          (arith, lookup-insert p.profile_id q p s.profiles, v.own_id q r, eq_iff p.profile_id q);
    within = λ q r found. ground (
      arith,
      lookup-insert p.profile_id q p s.profiles,
      v.within q r,
      lookup-insert p.profile_id q 0 s.profile_assignment_counts,
      eq_iff p.profile_id q,
    );
  }

  register-IsWithin : (p : AgentProfile) → IsWithin (register_profile p s).1
  unfolding register_profile
  register-IsWithin p = elim (Bool-cases (has p.profile_id s.profiles)) [
    | inl known ↦ rw known v
    | inr new ↦ rw new (add-IsWithin p)
  ]

  clear-IsWithin : IsWithin (clear s)
  unfolding clear
  clear-IsWithin = record {
    distinct = v.distinct;
    own_id = v.own_id;
    within = λ q p found. omega (arith, lookup-reset q s.profile_assignment_counts);
  }

step-IsWithin : (op : Op) (s : AgentScheduler) → IsWithin s → IsWithin (step op s)
unfolding step
step-IsWithin (register p) s v = register-IsWithin s v p
step-IsWithin (unregister pid) s v =
    unfold unregister_profile in unregistered_IsWithin s v pid (lookup pid s.profiles)
step-IsWithin (give o device pid aid) s v = assign-IsWithin s v o device pid aid
step-IsWithin (take_back device_id) s v =
    unfold release in released_IsWithin s v device_id (lookup device_id s.assignments)
step-IsWithin clear_all s v = clear-IsWithin s v

run_from-IsWithin : (ops : List Op) (s : AgentScheduler) → IsWithin s → IsWithin (run ops s)
unfolding run
run_from-IsWithin [] s v = v
run_from-IsWithin (op ∷ ops) s v = run_from-IsWithin ops (step op s) (step-IsWithin op s v)

bare-IsWithin : IsWithin bare
unfolding lookup
bare-IsWithin = record { distinct = tt; own_id = λ pid p found. cc; within = λ pid p found. cc }

add_profiles-IsWithin :
    (ps : List AgentProfile) (s : AgentScheduler) → IsWithin s → IsWithin (add_profiles ps s)
unfolding add_profiles
add_profiles-IsWithin [] s v = v
add_profiles-IsWithin (p ∷ ps) s v = add_profiles-IsWithin ps (add_profile p s) (add-IsWithin s v p)

-- After any calls of its methods, a scheduler that began with the default profiles has each profile
-- once, under its own id, and counts no more assignments of a profile than the profile allows.
pub run-IsWithin : (ops : List Op) → IsWithin (run ops init)
unfolding init
run-IsWithin ops =
    run_from-IsWithin ops (add_profiles defaults bare)
      (add_profiles-IsWithin defaults bare bare-IsWithin)

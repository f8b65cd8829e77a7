-- ===== src/Scheduler/Agents/Accounting.antt =====
-- The counts of `AgentScheduler` in core/scheduler/scheduler.py against its assignments.
use core_host.Base.{
  ℕ, ◌+◌, ◌-◌, ◌≡◌, refl, true, false, String, Option, none, some, [], ◌∷◌, inl, inr, Option-cases,
  if◌then◌else◌, or_else, arith, eq_iff, eq_refl, ◌==◌, Result, ok, err,
}
use core_host.Base.Dict.{
  Dict, lookup, insert, erase, has, IsDistinct, lookup-insert, lookup-erase, has-insert,
  insert-IsDistinct, erase-IsDistinct, erase_absent,
}
use core_host.Resources.Models.{Resource}
use core_host.Scheduler.Models.{AgentProfile, Assignment}
use core_host.Scheduler.Profiles.{AgentScheduler, SchedulerError, count_of, find_suitable_agent}
use core_host.Scheduler.Agents.{
  Outside, assign, assign_made, new_agent, record_assignment, existing_for, clear_stale,
  agent_id_or, decrement, release, release_found,
}

-- How many assignments are of the profile.
unfoldable pub held : String → Dict Assignment → ℕ
held pid [] = 0
held pid ((d, a) ∷ m) = (if a.profile_id == pid then 1 else 0) + held pid m

one_if : String → Option Assignment → ℕ
one_if pid none = 0
one_if pid (some a) = if a.profile_id == pid then 1 else 0

held-insert :
    (pid d : String) (a : Assignment) (m : Dict Assignment)
    → lookup d m ≡ none
    → held pid (insert d a m) ≡ held pid m + (if a.profile_id == pid then 1 else 0)
unfolding held insert lookup
held-insert pid d a [] h = ground arith
held-insert pid d a ((e, b) ∷ m) h = ground (arith, held-insert pid d a m)

held-erase :
    (pid d : String) (m : Dict Assignment)
    → IsDistinct m
    → held pid (erase d m) + one_if pid (lookup d m) ≡ held pid m
unfolding held erase lookup has one_if
held-erase pid d [] h = refl
held-erase pid d ((e, b) ∷ m) (new, h) =
    ground (arith, held-erase pid d m h, erase_absent d m, eq_iff e d)

-- Each count is the number of assignments of its profile, and each assignment has an agent of its
-- own.
pub record IsAccurate (s : AgentScheduler) : Type 0 where
  pub distinct : IsDistinct s.assignments
  pub counted :
      (pid : String)
      → has pid s.profile_assignment_counts ≡ true
      → count_of s pid ≡ held pid s.assignments
  pub backed :
      (d : String) (a : Assignment)
      → lookup d s.assignments ≡ some a
      → has a.agent_id s.agent_resources ≡ true
  pub own :
      (d e : String) (a b : Assignment)
      → lookup d s.assignments ≡ some a
      → lookup e s.assignments ≡ some b
      → a.agent_id ≡ b.agent_id
      → d ≡ e

module _ (s : AgentScheduler) (v : IsAccurate s) where
  -- Where every assignment is backed, there is nothing stale.
  not_stale : (d : String) → existing_for d s ≡ none → lookup d s.assignments ≡ none
  not_stale d h = elim (Option-cases (lookup d s.assignments)) [
    | inl absent ↦ absent
    | inr (a, found) ↦ unfold has in ground (arith, v.backed d a found)
  ]

  made_IsAccurate :
      (o : Outside) (p : AgentProfile) (device : Resource) (aid : String)
      → has p.profile_id s.profile_assignment_counts ≡ true
      → has aid s.agent_resources ≡ false
      → lookup device.resource_id s.assignments ≡ none
      → (r : Result SchedulerError Resource)
      → IsAccurate (assign_made o p device aid (clear_stale device.resource_id s) r).1
  unfolding record_assignment
  made_IsAccurate o p device aid known fresh absent (err e) =
      rw (erase_absent device.resource_id s.assignments absent)
        (record { distinct = v.distinct; counted = v.counted; backed = v.backed; own = v.own })
  made_IsAccurate o p device aid known fresh absent (ok agent) =
      let a : Assignment = record {
        device_id = device.resource_id;
        agent_id = aid;
        profile_id = p.profile_id;
        assigned_at = o.now;
      } in
      let device_id = device.resource_id in
      rw (erase_absent device.resource_id s.assignments absent) (record {
        distinct = insert-IsDistinct device_id a s.assignments v.distinct;
        counted = λ pid counts.
            unfold has in
            ground (
              arith,
              held-insert pid device_id a s.assignments absent,
              has-insert p.profile_id pid (count_of s p.profile_id + 1) s.profile_assignment_counts,
              lookup-insert p.profile_id pid (count_of s p.profile_id + 1)
                  s.profile_assignment_counts,
              eq_iff p.profile_id pid,
              v.counted pid,
            );
        backed = λ d b found. ground (
          arith,
          lookup-insert device_id d a s.assignments,
          has-insert aid b.agent_id agent s.agent_resources,
          eq_iff aid b.agent_id,
          v.backed d b,
        );
        own = λ d e b c found_d found_e same. ground (
          arith,
          lookup-insert device_id d a s.assignments,
          lookup-insert device_id e a s.assignments,
          eq_iff device_id d,
          eq_iff device_id e,
          v.own d e b c,
          v.backed d b,
          v.backed e c,
        );
      })

  decrement-held :
      (pid device_id : String) (a : Assignment) (o : Option ℕ)
      → lookup device_id s.assignments ≡ some a
      → lookup a.profile_id s.profile_assignment_counts ≡ o
      → has pid (decrement a.profile_id s.profile_assignment_counts o) ≡ true
      → or_else (lookup pid (decrement a.profile_id s.profile_assignment_counts o)) 0
        ≡ held pid (erase device_id s.assignments)
  unfolding has one_if
  decrement-held pid device_id a none found counts known = ground (
    arith,
    held-erase pid device_id s.assignments v.distinct,
    v.counted pid,
    eq_iff a.profile_id pid,
  )
  decrement-held pid device_id a (some n) found counts known = ground (
    arith,
    held-erase pid device_id s.assignments v.distinct,
    v.counted pid,
    eq_iff a.profile_id pid,
    lookup-insert a.profile_id pid (n - 1) s.profile_assignment_counts,
  )

  released_IsAccurate :
      (device_id : String) (o : Option Assignment)
      → lookup device_id s.assignments ≡ o
      → IsAccurate (release_found device_id s o).1
  released_IsAccurate device_id none h = v
  released_IsAccurate device_id (some a) h = record {
    distinct = erase-IsDistinct device_id s.assignments v.distinct;
    counted = λ pid known.
        decrement-held pid device_id a (lookup a.profile_id s.profile_assignment_counts) h refl
          known;
    backed = λ d b found.
        unfold has in
        ground (
          arith,
          lookup-erase device_id d s.assignments,
          lookup-erase a.agent_id b.agent_id s.agent_resources,
          eq_iff a.agent_id b.agent_id,
          eq_iff device_id d,
          v.backed d b,
          v.own device_id d a b h,
        );
    own = λ d e b c found_d found_e. ground (
      arith,
      lookup-erase device_id d s.assignments,
      lookup-erase device_id e s.assignments,
      v.own d e b c,
    );
  }

-- From accurate counts, an `assign` whose new agent would take an id that no agent has leaves
-- accurate counts, whichever profile is chosen, if that profile has a count.
pub assign-IsAccurate :
    (s : AgentScheduler) (o : Outside) (device : Resource) (profile_id agent_id : Option String)
    → IsAccurate s
    → ((p : AgentProfile)
        → find_suitable_agent device profile_id s ≡ some p
        → has p.profile_id s.profile_assignment_counts ≡ true)
    → has (agent_id_or agent_id o device) s.agent_resources ≡ false
    → IsAccurate (assign o device profile_id agent_id s).1
unfolding assign
assign-IsAccurate s o device profile_id agent_id v known fresh =
    elim (Option-cases (find_suitable_agent device profile_id s)) [
      | inl absent ↦ rw absent v
      | inr (p, found) ↦ elim (Option-cases (existing_for device.resource_id s)) [
        | inr (e, there) ↦ rw (found, there) v
        | inl nothing ↦
            let aid = agent_id_or agent_id o device in
            rw (found, nothing)
              (made_IsAccurate s v o p device aid (known p found) fresh
                (not_stale s v device.resource_id nothing) (new_agent o p device aid))
      ]
    ]

-- From accurate counts, `release` leaves accurate counts, whether there is an assignment or not.
pub release-IsAccurate :
    (s : AgentScheduler) (device_id : String) → IsAccurate s → IsAccurate (release device_id s).1
unfolding release
release-IsAccurate s device_id v =
    released_IsAccurate s v device_id (lookup device_id s.assignments) refl

-- An `assign` for a device whose assignment is there and whose agent is gone, of a profile that the
-- assignment has too, counts one more assignment, and there are as many as before.
pub assign_drifts :
    (s : AgentScheduler) (o : Outside) (device : Resource) (profile_id agent_id : Option String)
    (old : Assignment) (p : AgentProfile) (agent : Resource)
    → IsDistinct s.assignments
    → lookup device.resource_id s.assignments ≡ some old
    → lookup old.agent_id s.agent_resources ≡ none
    → find_suitable_agent device profile_id s ≡ some p
    → old.profile_id ≡ p.profile_id
    → new_agent o p device (agent_id_or agent_id o device) ≡ ok agent
    → let s' = (assign o device profile_id agent_id s).1 in
      (count_of s' p.profile_id ≡ count_of s p.profile_id + 1)
      × (held p.profile_id s'.assignments ≡ held p.profile_id s.assignments)
unfolding assign record_assignment one_if
assign_drifts s o device profile_id agent_id old p agent distinct there gone chosen same made =
    let d = device.resource_id in
    let nothing : existing_for d s ≡ none = ground arith in
    let a : Assignment = record {
      device_id = d;
      agent_id = agent_id_or agent_id o device;
      profile_id = p.profile_id;
      assigned_at = o.now;
    } in
    let erased : lookup d (erase d s.assignments) ≡ none =
      ground (arith, lookup-erase d d s.assignments, eq_refl d) in
    rw (chosen, nothing, made)
      (
        ground (
          arith,
          eq_refl p.profile_id,
          lookup-insert p.profile_id p.profile_id (count_of s p.profile_id + 1)
              s.profile_assignment_counts,
        ),
        ground (
          arith,
          eq_refl p.profile_id,
          held-erase p.profile_id d s.assignments distinct,
          held-insert p.profile_id d a (erase d s.assignments) erased,
        ),
      )

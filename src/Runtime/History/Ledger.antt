-- ===== src/Runtime/History/Ledger.antt =====
-- The intervals of core/runtime/history.py.
use core_host.Base.{
  ℕ, ◌+◌, ◌≡◌, refl, sym, ap, ◌∙◌, Bool, true, false, String, Option, none, some, List, [], ◌∷◌,
  ◌++◌, ◌-◌, or_else, if◌then◌else◌, ok, arith, eq_refl, ◌==◌, inl, inr, Bool-cases,
}
use core_host.Base.Dict.{Dict, lookup, insert, lookup-insert}
use core_host.Runtime.History.{
  RuntimeRecord, RuntimeHistory, init, finish, is_active, close_found, new_record, start,
  end_active, end_found, end, Op, starts, ends, step, run,
}

-- A test of an interval: the entity, its type and the start time.
abbrev pub Test : Type 0
Test = String → String → ℕ → Bool

-- 1 for an interval that passes the test, else 0.
abbrev pub weight : Test → String → String → ℕ → ℕ
weight test id type t = if test id type t then 1 else 0

abbrev pub weight_of : Test → RuntimeRecord → ℕ
weight_of test r = weight test r.entity_id r.entity_type r.start_time

-- How many of the calls begin an interval that passes the test.
abbrev pub begun : Test → List Op → ℕ
begun test [] = 0
begun test (starts now later id type metadata t ∷ ops) =
    (if id == "" then 0 else weight test id type (or_else t now)) + begun test ops
begun test (ends now id status metadata t ∷ ops) = begun test ops

-- How many of the completed records pass.
abbrev pub completed_in : Test → List RuntimeRecord → ℕ
completed_in test [] = 0
completed_in test (r ∷ rs) = weight_of test r + completed_in test rs

-- 0 for a record that is finished.
abbrev pub running_weight : Test → RuntimeRecord → ℕ
running_weight test r = if is_active r then weight_of test r else 0

-- How many of the records that run pass.
abbrev pub running_in : Test → Dict RuntimeRecord → ℕ
running_in test [] = 0
running_in test ((k, r) ∷ d) = running_weight test r + running_in test d

-- A completed record has ended, and its duration is the time from its start to its end.
abbrev pub IsFinished : RuntimeRecord → Type 0
IsFinished r = (t : ℕ) × (r.end_time ≡ some t) × (r.duration ≡ some (t - r.start_time))

abbrev pub AllFinished : List RuntimeRecord → Type 0
AllFinished [] = Unit
AllFinished (r ∷ rs) = IsFinished r × AllFinished rs

AllFinished-snoc :
    (rs : List RuntimeRecord) (r : RuntimeRecord)
    → AllFinished rs
    → IsFinished r
    → AllFinished (rs ++ r ∷ [])
AllFinished-snoc [] r all one = (one, tt)
AllFinished-snoc (q ∷ rs) r (first, all) one = (first, AllFinished-snoc rs r all one)

finish-IsFinished :
    (now : ℕ) (status : String) (t : Option ℕ) (metadata : Option (Dict (Option String)))
    (r : RuntimeRecord)
    → IsFinished (finish now status t metadata r)
unfolding finish
finish-IsFinished now status t metadata r = (or_else t now, refl, refl)

close_found-AllFinished :
    (now : ℕ) (found : Option RuntimeRecord) (h : RuntimeHistory)
    → AllFinished h.completed
    → AllFinished (close_found now found h).completed
close_found-AllFinished now none h all = all
close_found-AllFinished now (some r) h all = elim (Bool-cases (is_active r)) [
  | inl on ↦ rw on (AllFinished-snoc h.completed _ all (finish-IsFinished now "failed" none none r))
  | inr off ↦ rw off all
]

start-AllFinished :
    (now later : ℕ) (id type : String) (metadata : Option (Dict (Option String))) (t : Option ℕ)
    (h : RuntimeHistory)
    → AllFinished h.completed
    → AllFinished (start now later id type metadata t h).1.completed
unfolding start
start-AllFinished now later id type metadata t h all = elim (Bool-cases (id == "")) [
  | inl empty ↦ rw empty all
  | inr named ↦ rw named (close_found-AllFinished later (lookup id h.records) h all)
]

end_found-AllFinished :
    (now : ℕ) (id status : String) (metadata : Option (Dict (Option String))) (t : Option ℕ)
    (h : RuntimeHistory) (found : Option RuntimeRecord)
    → AllFinished h.completed
    → AllFinished (end_found now id status metadata t found h).1.completed
end_found-AllFinished now id status metadata t h none all = all
end_found-AllFinished now id status metadata t h (some r) all = elim (Bool-cases (is_active r)) [
  | inr off ↦ rw off all
  | inl on ↦ rw on (AllFinished-snoc h.completed _ all (finish-IsFinished now status t metadata r))
]

run-AllFinished :
    (ops : List Op) (h : RuntimeHistory)
    → AllFinished h.completed
    → AllFinished (run ops h).completed
unfolding run step
run-AllFinished [] h all = all
run-AllFinished (starts now later id type metadata t ∷ ops) h all =
    run-AllFinished ops _ (start-AllFinished now later id type metadata t h all)
run-AllFinished (ends now id status metadata t ∷ ops) h all =
    run-AllFinished ops _
      (unfold end in end_found-AllFinished now id status metadata t h (lookup id h.records) all)

module _ (test : Test) where
  found_weight : Option RuntimeRecord → ℕ
  found_weight none = 0
  found_weight (some r) = running_weight test r

  completed_in-snoc :
      (rs : List RuntimeRecord) (r : RuntimeRecord)
      → completed_in test (rs ++ r ∷ []) ≡ completed_in test rs + weight_of test r
  completed_in-snoc [] r = omega arith
  completed_in-snoc (q ∷ rs) r = let rest = completed_in-snoc rs r in omega (arith, rest)

  running_in-insert :
      (k : String) (r : RuntimeRecord) (d : Dict RuntimeRecord)
      → running_in test (insert k r d) + found_weight (lookup k d)
        ≡ running_in test d + running_weight test r
  unfolding insert lookup found_weight
  running_in-insert k r [] = omega arith
  running_in-insert k r ((j, q) ∷ d) =
      let rest = running_in-insert k r d in
      elim (Bool-cases (j == k)) [
        | inl same ↦ rw same (omega arith)
        | inr other ↦ rw other (omega (arith, rest))
      ]

  -- All intervals that pass: those that were completed and those that are still running.
  intervals : RuntimeHistory → ℕ
  intervals h = completed_in test h.completed + running_in test h.records

  finish-weight :
      (now : ℕ) (status : String) (t : Option ℕ) (metadata : Option (Dict (Option String)))
      (r : RuntimeRecord)
      → (weight_of test (finish now status t metadata r) ≡ weight_of test r)
        × (running_weight test (finish now status t metadata r) ≡ 0)
  unfolding finish
  finish-weight now status t metadata r = (refl, refl)

  close_found-completed :
      (now : ℕ) (found : Option RuntimeRecord) (h : RuntimeHistory)
      → (completed_in test (close_found now found h).completed
          ≡ completed_in test h.completed + found_weight found)
        × ((close_found now found h).records ≡ h.records)
  unfolding found_weight
  close_found-completed now none h = (omega arith, refl)
  close_found-completed now (some r) h = elim (Bool-cases (is_active r)) [
    | inl on ↦
        let longer = completed_in-snoc h.completed (finish now "failed" none none r) in
        let (same, none_left) = finish-weight now "failed" none none r in
        rw on (omega (arith, longer, same), refl)
    | inr off ↦ rw off (omega arith, refl)
  ]

  intervals-start :
      (now later : ℕ) (id type : String) (metadata : Option (Dict (Option String))) (t : Option ℕ)
      (h : RuntimeHistory)
      → intervals (start now later id type metadata t h).1
        ≡ (if id == "" then 0 else weight test id type (or_else t now)) + intervals h
  unfolding start intervals
  intervals-start now later id type metadata t h = elim (Bool-cases (id == "")) [
    | inl empty ↦ rw empty (omega arith)
    | inr named ↦
        let r = new_record now id type metadata t in
        let (closed, same) = close_found-completed later (lookup id h.records) h in
        let put_in = running_in-insert id r h.records in
        let moved = ap (λ d. running_in test (insert id r d)) same in
        rw named (omega (arith, closed, put_in, moved))
  ]

  intervals-end_found :
      (now : ℕ) (id status : String) (metadata : Option (Dict (Option String))) (t : Option ℕ)
      (h : RuntimeHistory) (found : Option RuntimeRecord)
      → lookup id h.records ≡ found
      → intervals (end_found now id status metadata t found h).1 ≡ intervals h
  unfolding intervals
  intervals-end_found now id status metadata t h none here = refl
  intervals-end_found now id status metadata t h (some r) here = elim (Bool-cases (is_active r)) [
    | inr off ↦ rw off refl
    | inl on ↦
        let done = finish now status t metadata r in
        let put_in = running_in-insert id done h.records in
        let longer = completed_in-snoc h.completed done in
        let was : found_weight (lookup id h.records) ≡ weight_of test r =
          ap found_weight here ∙ (unfold found_weight in rw on refl) in
        let (same, over) = finish-weight now status t metadata r in
        rw on (omega (arith, put_in, longer, was, same, over))
  ]

  intervals-run :
      (ops : List Op) (h : RuntimeHistory) → intervals (run ops h) ≡ begun test ops + intervals h
  unfolding run step
  intervals-run [] h = omega arith
  intervals-run (starts now later id type metadata t ∷ ops) h =
      let one = intervals-start now later id type metadata t h in
      let rest = intervals-run ops (start now later id type metadata t h).1 in
      omega (arith, one, rest)
  intervals-run (ends now id status metadata t ∷ ops) h =
      let one : intervals (end now id status metadata t h).1 ≡ intervals h =
        unfold end in intervals-end_found now id status metadata t h (lookup id h.records) refl in
      let rest = intervals-run ops (end now id status metadata t h).1 in omega (arith, one, rest)

-- After any calls of `start` and `end`, for any test of an entity, its type and a start time: the
-- completed records and the records that still run, of those that pass the test, are as many as the
-- calls of `start` with an entity_id that is not empty that pass it. Each completed record has an
-- end time, and its duration is the time from its start to its end.
pub intervals_kept :
    (test : Test) (ops : List Op)
    → (completed_in test (run ops init).completed + running_in test (run ops init).records
        ≡ begun test ops)
      × AllFinished (run ops init).completed
intervals_kept test ops =
    let h : completed_in test (run ops init).completed + running_in test (run ops init).records
        ≡ begun test ops + 0 =
      unfold intervals in intervals-run test ops init in
    (omega (arith, h), run-AllFinished ops init tt)

-- What an `end` that returned leaves.
end_active-lookup :
    (now : ℕ) (id status : String) (m : Option (Dict (Option String))) (t : Option ℕ)
    (h : RuntimeHistory) (q r : RuntimeRecord) (active : Bool)
    → lookup id h.records ≡ some q
    → is_active q ≡ active
    → (end_active now id status m t active q h).0 ≡ ok r
    → (lookup id (end_active now id status m t active q h).1.records ≡ some r)
      × (is_active r ≡ false)
end_active-lookup now id status m t h q r false here off returned =
    let same : q ≡ r = cc in (here ∙ ap some same, ap is_active (sym same) ∙ off)
end_active-lookup now id status m t h q r true here on returned =
    let done = finish now status t m q in
    let same : done ≡ r = cc in
    let over : is_active done ≡ false = unfold finish in refl in
    (
      lookup-insert id id done h.records
          ∙ ap (λ b. if b then some done else lookup id h.records) (eq_refl id)
          ∙ ap some same,
      ap is_active (sym same) ∙ over,
    )

end_found-lookup :
    (now : ℕ) (id status : String) (m : Option (Dict (Option String))) (t : Option ℕ)
    (h : RuntimeHistory) (r : RuntimeRecord) (found : Option RuntimeRecord)
    → lookup id h.records ≡ found
    → (end_found now id status m t found h).0 ≡ ok r
    → (lookup id (end_found now id status m t found h).1.records ≡ some r) × (is_active r ≡ false)
end_found-lookup now id status m t h r none here returned = cc
end_found-lookup now id status m t h r (some q) here returned =
    end_active-lookup now id status m t h q r (is_active q) here refl returned

-- Once an `end` of an entity has returned a record, a second one returns the same record and changes
-- nothing, whatever status, metadata and time it is given.
pub end_again :
    (now later : ℕ) (id status again : String) (m n : Option (Dict (Option String)))
    (t u : Option ℕ) (h : RuntimeHistory) (r : RuntimeRecord)
    → (end now id status m t h).0 ≡ ok r
    → end later id again n u (end now id status m t h).1 ≡ (ok r, (end now id status m t h).1)
unfolding end
end_again now later id status again m n t u h r returned =
    let h' = (end now id status m t h).1 in
    let (here, over) = end_found-lookup now id status m t h r (lookup id h.records) refl returned in
    ap (λ f. end_found later id again n u f h') here
    ∙ ap (λ b. end_active later id again n u b r h') over

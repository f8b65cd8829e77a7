-- ===== src/Runtime/StartOrder/Faults.antt =====
-- Why `visit` of core/runtime/runtime.py raises.
use core_host.Base.{
  ℕ, zero, suc, ◌<◌, ◌≡◌, true, false, String, List, [], ◌∷◌, elem, ok, err, >>=-eq-err, ◌⊎◌, inl,
  inr, arith, eq_iff, elem-add-cases, outside, outside-add-lt, Bool-cases,
}
use core_host.Base.Dict.{has, keys, elem-keys}
use core_host.Base.Sorted.{sorted, elem-sorted}
use core_host.Runtime.State.{Runtime, Exception, circular, missing_dependency, disabled_dependency}
use core_host.Runtime.StartOrder.{
  Walk, Visitor, dependencies_of, enabled_or_true, visit_each, visit, open_call, close_call,
}
use core_host.Runtime.StartOrder.Sound.{IsSound, Places, visit-Places, open_call-IsSound}

-- The first component depends on the second, directly or through others.
pub data Needs (r : Runtime) (x : String) : String → Type 0 where
  direct : {d : String} → elem d (dependencies_of r x) ≡ true → Needs r x d
  further : {y d : String} → Needs r x y → elem d (dependencies_of r y) ≡ true → Needs r x d

-- A component that is registered, or is named as a dependency by one that is.
abbrev pub IsNamed : Runtime → String → Type 0
IsNamed r m = (n : String) × (has n r.components ≡ true) × (elem m (dependencies_of r n) ≡ true)

-- What is wrong with the registered components when the exception is raised.
abbrev pub Fault : Runtime → Exception → Type 0
Fault r (circular c) = Needs r c c
Fault r (missing_dependency m) = (has m r.components ≡ false) × IsNamed r m
Fault r (disabled_dependency n d) =
    (has n r.components ≡ true)
    × (enabled_or_true r n ≡ true)
    × (elem d (dependencies_of r n) ≡ true)
    × (enabled_or_true r d ≡ false)
Fault r _ = ⊥

-- What a call of `visit` may rely on.
pub record IsCall (r : Runtime) (fuel : ℕ) (name : String) (w : Walk) : Type 0 where
  pub sound : IsSound r w
  pub room : outside w.visiting (keys r.components) < fuel
  pub chain : (x : String) → elem x w.visiting ≡ true → Needs r x name
  pub named : (has name r.components ≡ false) → IsNamed r name
  pub on : enabled_or_true r name ≡ true

abbrev Explains : Runtime → ℕ → Visitor → Type 0
Explains r fuel go =
    (name : String) (w : Walk) (e : Exception)
    → IsCall r fuel name w
    → go name w ≡ err e
    → Fault r e

visit_each_err :
    (r : Runtime) (go : Visitor) (name d : String) (ds : List String) (w : Walk) (e : Exception)
    → visit_each r go name (d ∷ ds) w ≡ err e
    → ((enabled_or_true r d ≡ false) × (disabled_dependency name d ≡ e))
      ⊎ ((enabled_or_true r d ≡ true)
          × ((go d w ≡ err e)
              ⊎ ((v : Walk) × (go d w ≡ ok v) × (visit_each r go name ds v ≡ err e))))
unfolding visit_each
visit_each_err r go name d ds w e h = elim (Bool-cases (enabled_or_true r d)) [
  | inl on ↦ inr (on, >>=-eq-err (go d w) (visit_each r go name ds) (rw on at h))
  | inr off ↦ let h' = rw off at h in inl (off, cc)
]

-- The loop over dependencies of a registered and enabled component, as the calls in it see it.
pub record IsLoop (r : Runtime) (fuel : ℕ) (name : String) (ds : List String) (w : Walk)
    : Type 0 where
  pub sound : IsSound r w
  pub room : outside w.visiting (keys r.components) < fuel
  pub chain : (x d : String) → elem x w.visiting ≡ true → elem d ds ≡ true → Needs r x d
  pub within : (d : String) → elem d ds ≡ true → elem d (dependencies_of r name) ≡ true
  pub known : has name r.components ≡ true
  pub on : enabled_or_true r name ≡ true

visit_each-Explains :
    (r : Runtime) (fuel : ℕ) (go : Visitor)
    → Places r go
    → Explains r fuel go
    → (name : String) (ds : List String) (w : Walk) (e : Exception) → IsLoop r fuel name ds w
    → visit_each r go name ds w ≡ err e
    → Fault r e
visit_each-Explains r fuel go p x name [] w e l h = unfold visit_each in cc
visit_each-Explains r fuel go p x name (d ∷ ds) w e l h =
    elim (visit_each_err r go name d ds w e h) [
      | inl (off, same) ↦ rw (← same) (l.known, l.on, l.within d here, off)
      | inr (on, inl first) ↦
          x d w e
            (record {
              sound = l.sound;
              room = l.room;
              chain = λ y b. l.chain y d b here;
              named = λ _. (name, l.known, l.within d here);
              on = on;
            })
            first
      | inr (on, inr (v, first, others)) ↦
          let g = (p d w v l.sound on first).0 in
          visit_each-Explains r fuel go p x name ds v e
            (record {
              sound = g.sound;
              room = rw g.open_calls l.room;
              chain = λ y b m c. l.chain y b (rw g.open_calls at m) (there b c);
              within = λ b c. l.within b (there b c);
              known = l.known;
              on = l.on;
            })
            others
    ]
  where
    here : elem d (d ∷ ds) ≡ true
    here = unfold elem in ground (arith, eq_iff d d)

    there : (b : String) → elem b ds ≡ true → elem b (d ∷ ds) ≡ true
    there b c = unfold elem in ground arith

-- The branches of `visit` that raise.
visit_err :
    (r : Runtime) (fuel : ℕ) (name : String) (w : Walk) (e : Exception)
    → visit r (suc fuel) name w ≡ err e
    → ((elem name w.visiting ≡ true) × (circular name ≡ e))
      ⊎ (((has name r.components ≡ false) × (missing_dependency name ≡ e))
          ⊎ ((elem name w.visiting ≡ false)
              × (elem name w.visited ≡ false)
              × (has name r.components ≡ true)
              × (visit_each r
                    (visit r fuel)
                    name
                    (sorted (dependencies_of r name))
                    (open_call name w)
                  ≡ err e)))
unfolding visit
visit_err r fuel name w e h = elim (Bool-cases (elem name w.visiting)) [
  | inl busy ↦ let h' = rw busy at h in inl (busy, cc)
  | inr idle ↦ elim (Bool-cases (elem name w.visited)) [
    | inl old ↦ let h' = rw (idle, old) at h in cc
    | inr new ↦ elim (Bool-cases (has name r.components)) [
      | inr unknown ↦ let h' = rw (idle, new, unknown) at h in inr (inl (unknown, cc))
      | inl known ↦
          let h' = rw (idle, new, known) at h in
          elim (>>=-eq-err
            (visit_each r (visit r fuel) name (sorted (dependencies_of r name)) (open_call name w))
            (λ u. ok (close_call name u)) h') [
              | inl loop ↦ inr (inr (idle, new, known, loop))
              | inr (v, _, end) ↦ cc
            ]
    ]
  ]
]

-- Every exception of `visit` is explained by the registered components, and enough fuel is given.
pub visit-Explains : (r : Runtime) (fuel : ℕ) → Explains r fuel (visit r fuel)
visit-Explains r zero name w e c h = absurd (omega (arith, c.room))
visit-Explains r (suc fuel) name w e c h = elim (visit_err r fuel name w e h) [
  | inl (busy, same) ↦ rw (← same) (c.chain name busy)
  | inr (inl (unknown, same)) ↦ rw (← same) (unknown, c.named unknown)
  | inr (inr (idle, new, known, loop)) ↦
      visit_each-Explains r fuel (visit r fuel) (visit-Places r fuel) (visit-Explains r fuel) name
        (sorted (dependencies_of r name)) (open_call name w) e
        (record {
          sound = open_call-IsSound r name w c.sound new;
          room = omega (
            arith,
            c.room,
            outside-add-lt name w.visiting (keys r.components) (rw elem-keys known) idle,
          );
          chain = λ x d b m. elim (elem-add-cases x name w.visiting b) [
            | inl old ↦ further (c.chain x old) (rw elem-sorted at m)
            | inr new_one ↦ direct (rw (← new_one) (rw elem-sorted at m))
          ];
          within = λ d m. rw elem-sorted at m;
          known = known;
          on = c.on;
        })
        loop
]

-- ===== src/Runtime/StartOrder/Sound.antt =====
-- What a start order promises, and that `visit` of core/runtime/runtime.py keeps it.
use core_host.Base.{
  ℕ, zero, suc, ◌≡◌, refl, true, false, String, List, [], ◌∷◌, ◌++◌, elem, remove_first, ok,
  >>=-eq-ok, ◌⊎◌, inl, inr, arith, eq_iff, eq_refl, elem_snoc, elem-add, elem_snoc_self,
  elem_snoc_of_elem, remove_first-add, add_of_new, Bool-cases,
}
use core_host.Base.Dict.{has}
use core_host.Base.Sorted.{sorted, elem-sorted}
use core_host.Runtime.State.{Runtime}
use core_host.Runtime.StartOrder.{
  Walk, Visitor, dependencies_of, enabled_or_true, visit_each, visit, open_call, close_call,
}

-- A list of components in which each one is new, registered and enabled, and stands behind all of
-- its dependencies.
pub data IsStartOrder (r : Runtime) : List String → Type 0 where
  none_yet : IsStartOrder r []
  then_start :
      {xs ys : List String} (name : String)
      → IsStartOrder r xs
      → has name r.components ≡ true
      → enabled_or_true r name ≡ true
      → elem name xs ≡ false
      → ((d : String) → elem d (dependencies_of r name) ≡ true → elem d xs ≡ true)
      → ys ≡ xs ++ name ∷ []
      → IsStartOrder r ys

pub record IsSound (r : Runtime) (w : Walk) : Type 0 where
  pub ordered : IsStartOrder r w.order
  pub same : w.visited ≡ w.order
  pub apart : (x : String) → elem x w.visiting ≡ true → elem x w.order ≡ false

-- `after` is a sound walk that has gone on from `before`, with the same chain of open calls.
pub record GoesOn (r : Runtime) (before after : Walk) : Type 0 where
  pub open_calls : after.visiting ≡ before.visiting
  pub sound : IsSound r after
  pub grows : (x : String) → elem x before.order ≡ true → elem x after.order ≡ true

pub GoesOn-refl : (r : Runtime) (w : Walk) → IsSound r w → GoesOn r w w
GoesOn-refl r w s = record { open_calls = refl; sound = s; grows = λ x h. h }

pub GoesOn-trans : {r : Runtime} {u v w : Walk} → GoesOn r u v → GoesOn r v w → GoesOn r u w
GoesOn-trans f g = record {
  open_calls = cc (f.open_calls, g.open_calls);
  sound = g.sound;
  grows = λ x h. g.grows x (f.grows x h);
}

-- A visitor that, when it returns, has gone on and has placed its component.
abbrev pub Places : Runtime → Visitor → Type 0
Places r go =
    (name : String) (w w' : Walk)
    → IsSound r w
    → enabled_or_true r name ≡ true
    → go name w ≡ ok w'
    → GoesOn r w w' × (elem name w'.order ≡ true)

visit_each_inversion :
    (r : Runtime) (go : Visitor) (name d : String) (ds : List String) (w w' : Walk)
    → visit_each r go name (d ∷ ds) w ≡ ok w'
    → (v : Walk) × (enabled_or_true r d ≡ true)
      × (go d w ≡ ok v)
      × (visit_each r go name ds v ≡ ok w')
unfolding visit_each
visit_each_inversion r go name d ds w w' h = elim (Bool-cases (enabled_or_true r d)) [
  | inl on ↦
      let (v, first, others) = >>=-eq-ok (go d w) (visit_each r go name ds) (rw on at h) in
      (v, on, first, others)
  | inr off ↦ let h' = rw off at h in cc
]

pub visit_each-Places :
    (r : Runtime) (go : Visitor)
    → Places r go
    → (name : String) (ds : List String) (w w' : Walk) → IsSound r w
    → visit_each r go name ds w ≡ ok w'
    → GoesOn r w w' × ((d : String) → elem d ds ≡ true → elem d w'.order ≡ true)
unfolding visit_each elem
visit_each-Places r go p name [] w w' s h =
    let same : w ≡ w' = cc in (rw (← same) (GoesOn-refl r w s), λ d e. cc)
visit_each-Places r go p name (d ∷ ds) w w' s h =
    let (v, on, first, others) = visit_each_inversion r go name d ds w w' h in
    let (here, placed) = p d w v s on first in
    let (there, placed_all) = visit_each-Places r go p name ds v w' here.sound others in
    (GoesOn-trans here there, λ x e. ground (arith, placed_all x, there.grows x, eq_iff d x))

-- `visiting.add(name)`
pub open_call-IsSound :
    (r : Runtime) (name : String) (w : Walk)
    → IsSound r w
    → elem name w.visited ≡ false
    → IsSound r (open_call name w)
open_call-IsSound r name w s new = record {
  ordered = s.ordered;
  same = s.same;
  apart = λ x h. ground (arith, s.apart x, elem-add x name w.visiting, eq_iff name x, s.same);
}

close_call-GoesOn :
    (r : Runtime) (name : String) (w v : Walk)
    → IsSound r w
    → elem name w.visiting ≡ false
    → has name r.components ≡ true
    → enabled_or_true r name ≡ true
    → GoesOn r (open_call name w) v
    → ((d : String) → elem d (dependencies_of r name) ≡ true → elem d v.order ≡ true)
    → GoesOn r w (close_call name v)
close_call-GoesOn r name w v s new known on g deps = record {
  open_calls = closed;
  sound = record {
    ordered = then_start name g.sound.ordered known on fresh deps refl;
    same = cc (g.sound.same, add_of_new name v.order fresh);
    apart = λ x h. ground (
      arith,
      elem_snoc x name v.order,
      g.sound.apart x,
      elem-add x name w.visiting,
      eq_iff name x,
      closed,
      g.open_calls,
      new,
    );
  };
  grows = λ x h. elem_snoc_of_elem x name v.order (g.grows x h);
}
  where
    fresh : elem name v.order ≡ false
    fresh =
        g.sound.apart name
          (rw g.open_calls (ground (arith, elem-add name name w.visiting, eq_refl name)))

    closed : remove_first name v.visiting ≡ w.visiting
    closed = cc (g.open_calls, remove_first-add name w.visiting new)

-- What a call of `visit` that returns has found: a component that was visited before, or the end
-- of a loop over its dependencies.
visit_inversion :
    (r : Runtime) (fuel : ℕ) (name : String) (w w' : Walk)
    → visit r (suc fuel) name w ≡ ok w'
    → ((elem name w.visited ≡ true) × (w ≡ w'))
      ⊎ ((v : Walk) × (elem name w.visiting ≡ false)
          × (elem name w.visited ≡ false)
          × (has name r.components ≡ true)
          × (visit_each r (visit r fuel) name (sorted (dependencies_of r name)) (open_call name w)
              ≡ ok v)
          × (close_call name v ≡ w'))
unfolding visit
visit_inversion r fuel name w w' h = elim (Bool-cases (elem name w.visiting)) [
  | inl busy ↦ let h' = rw busy at h in cc
  | inr idle ↦ elim (Bool-cases (elem name w.visited)) [
    | inl old ↦ let h' = rw (idle, old) at h in inl (old, cc)
    | inr new ↦ elim (Bool-cases (has name r.components)) [
      | inr unknown ↦ let h' = rw (idle, new, unknown) at h in cc
      | inl known ↦
          let h' = rw (idle, new, known) at h in
          let (v, loop, end) =
            >>=-eq-ok
              (visit_each r (visit r fuel) name (sorted (dependencies_of r name))
                (open_call name w))
              (λ u. ok (close_call name u)) h' in
          inr (v, idle, new, known, loop, cc)
    ]
  ]
]

pub visit-Places : (r : Runtime) (fuel : ℕ) → Places r (visit r fuel)
visit-Places r zero name w w' s on h = unfold visit in cc
visit-Places r (suc fuel) name w w' s on h = elim (visit_inversion r fuel name w w' h) [
  | inl (old, same) ↦ rw (← same) (GoesOn-refl r w s, cc (s.same))
  | inr (v, idle, new, known, loop, end) ↦
      let (g, placed) =
        visit_each-Places r (visit r fuel) (visit-Places r fuel) name
          (sorted (dependencies_of r name)) (open_call name w) v (open_call-IsSound r name w s new)
          loop in
      rw (← end) (
        close_call-GoesOn r name w v s idle known on g (λ d e. placed d (rw elem-sorted e)),
        elem_snoc_self name v.order,
      )
]

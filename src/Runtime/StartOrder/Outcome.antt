-- ===== src/Runtime/StartOrder/Outcome.antt =====
-- `get_start_order` of core/runtime/runtime.py as a whole: what it returns and why it raises.
use core_host.Base.{
  ℕ, ◌+◌, ◌≡◌, refl, true, String, List, [], ◌∷◌, elem, length, ok, err, >>=-eq-ok, >>=-eq-err,
  Result-cases, inl, inr, arith, eq_iff, outside-le-length, Bool-cases,
}
use core_host.Base.Dict.{has, keys, elem-keys}
use core_host.Runtime.State.{Runtime, Exception, circular, missing_dependency, disabled_dependency}
use core_host.Runtime.StartOrder.{
  Walk, dependencies_of, enabled_or_true, visit, visit_all, get_start_order,
}
use core_host.Runtime.StartOrder.Sound.{
  IsStartOrder, IsSound, GoesOn, GoesOn-refl, GoesOn-trans, none_yet, visit-Places,
}
use core_host.Runtime.StartOrder.Faults.{Needs, Fault, visit-Explains}

abbrev fuel_of : Runtime → ℕ
fuel_of r = length (keys r.components) + 1

abbrev start : Walk
start = record { visiting = []; visited = []; order = [] }

start-IsSound : (r : Runtime) → IsSound r start
start-IsSound r = record { ordered = none_yet; same = refl; apart = λ x h. unfold elem in cc }

visit_all_ok :
    (r : Runtime) (names : List String) (w w' : Walk)
    → IsSound r w
    → visit_all r names w ≡ ok w'
    → GoesOn r w w'
      × ((x : String) → elem x names ≡ true → enabled_or_true r x ≡ true → elem x w'.order ≡ true)
unfolding visit_all elem
visit_all_ok r [] w w' s h = let same : w ≡ w' = cc in (rw (← same) (GoesOn-refl r w s), λ x e. cc)
visit_all_ok r (name ∷ names) w w' s h = elim (Bool-cases (enabled_or_true r name)) [
  | inr off ↦
      let (g, all) = visit_all_ok r names w w' s (rw off at h) in
      (g, λ x e on. ground (arith, all x, eq_iff name x))
  | inl on ↦
      let (v, first, others) =
        >>=-eq-ok (visit r (fuel_of r) name w) (visit_all r names) (rw on at h) in
      let (here, placed) = visit-Places r (fuel_of r) name w v s on first in
      let (there, all) = visit_all_ok r names v w' here.sound others in
      (GoesOn-trans here there, λ x e enabled. ground (arith, all x, there.grows x, eq_iff name x))
]

visit_all_err :
    (r : Runtime) (names : List String) (w : Walk) (e : Exception)
    → IsSound r w
    → w.visiting ≡ []
    → ((x : String) → elem x names ≡ true → has x r.components ≡ true)
    → visit_all r names w ≡ err e
    → Fault r e
unfolding visit_all
visit_all_err r [] w e s idle known h = cc
visit_all_err r (name ∷ names) w e s idle known h = elim (Bool-cases (enabled_or_true r name)) [
  | inr off ↦ visit_all_err r names w e s idle rest (rw off at h)
  | inl on ↦ elim (>>=-eq-err (visit r (fuel_of r) name w) (visit_all r names) (rw on at h)) [
    | inl first ↦
        visit-Explains r (fuel_of r) name w e
          (record {
            sound = s;
            room = omega (arith, outside-le-length w.visiting (keys r.components));
            chain = λ x b. let b' = rw idle at b in unfold elem in cc;
            named = λ unknown. let k = known name here in cc;
            on = on;
          })
          first
    | inr (v, first, others) ↦
        let g = (visit-Places r (fuel_of r) name w v s on first).0 in
        visit_all_err r names v e g.sound (cc (g.open_calls)) rest others
  ]
]
  where
    here : elem name (name ∷ names) ≡ true
    here = unfold elem in ground (arith, eq_iff name name)

    rest : (x : String) → elem x names ≡ true → has x r.components ≡ true
    rest x m = known x (unfold elem in ground arith)

-- A start order that is returned starts registered and enabled components only, each once and
-- behind all of its dependencies, and it starts every registered component that is enabled.
pub get_start_order_returns :
    (r : Runtime) (order : List String)
    → get_start_order r ≡ ok order
    → IsStartOrder r order
      × ((x : String)
          → has x r.components ≡ true
          → enabled_or_true r x ≡ true
          → elem x order ≡ true)
unfolding get_start_order
get_start_order_returns r order h =
    let (w, walked, end) = >>=-eq-ok (visit_all r (keys r.components) start) (λ v. ok v.order) h in
    let same : w.order ≡ order = cc in
    let (g, all) = visit_all_ok r (keys r.components) start w (start-IsSound r) walked in
    rw (← same) (g.sound.ordered, λ x known on. all x (rw elem-keys known) on)

-- When `get_start_order` raises, the registered components show why: a component that depends on
-- itself, a dependency that is not registered, or a dependency that is disabled.
pub get_start_order_raises : (r : Runtime) (e : Exception) → get_start_order r ≡ err e → Fault r e
unfolding get_start_order
get_start_order_raises r e h =
    elim (>>=-eq-err (visit_all r (keys r.components) start) (λ v. ok v.order) h) [
      | inl walked ↦
          visit_all_err r (keys r.components) start e (start-IsSound r) refl
            (λ x m. rw elem-keys at m) walked
      | inr (w, _, end) ↦ cc
    ]

-- No component depends on itself, and the dependencies of registered components are registered and
-- enabled.
pub record IsStartable (r : Runtime) : Type 0 where
  pub acyclic : (c : String) → ¬ Needs r c c
  pub closed :
      (n d : String)
      → has n r.components ≡ true
      → elem d (dependencies_of r n) ≡ true
      → (has d r.components ≡ true) × (enabled_or_true r d ≡ true)

IsStartable-Fault : (r : Runtime) (e : Exception) → IsStartable r → ¬ Fault r e
IsStartable-Fault r (circular c) s f = s.acyclic c f
IsStartable-Fault r (missing_dependency m) s (unknown, (n, known, named)) =
    let known' = (s.closed n m known named).0 in cc
IsStartable-Fault r (disabled_dependency n d) s (known, on, named, off) =
    let on' = (s.closed n d known named).1 in cc
IsStartable-Fault r _ s f = f

-- If no component depends on itself, directly or through others, and the dependencies of the
-- registered components are registered and enabled, then `get_start_order` returns an order.
pub get_start_order_total :
    (r : Runtime) → IsStartable r → (order : List String) × (get_start_order r ≡ ok order)
get_start_order_total r s = elim (Result-cases (get_start_order r)) [
  | inl returned ↦ returned
  | inr (e, raised) ↦ absurd (IsStartable-Fault r e s (get_start_order_raises r e raised))
]

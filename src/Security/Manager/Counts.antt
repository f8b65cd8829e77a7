-- ===== src/Security/Manager/Counts.antt =====
-- The metrics, the identities and the events of `SecurityManager` in core/security/manager.py.
use core_host.Base.Scalars.{Scalar}
use core_host.Base.{
  ◌+◌, ◌≤◌, ◌≡◌, refl, sym, ap, ◌∙◌, subst, Bool, true, false, String, Option, none, some, List, [],
  ◌∷◌, ◌++◌, map, ok, err, arith, ◌==◌, inl, inr, Bool-cases, ◌⊎◌, eq_iff,
}
use core_host.Base.Dict.{
  lookup, has, IsDistinct, insert-IsDistinct, erase-IsDistinct, lookup-insert, lookup-erase,
}
use core_host.Security.Models.{Identity, Permission, has_permission}
use core_host.Security.Provider.{
  Provider, Answer, accepts, rejects, raises_type_error, raises_identity_not_found,
  raises_authentication_error, raises_other,
}
use core_host.Security.Manager.{
  SecurityManager, Handler, EventType, Call, Op, init, start, stop, emit_event,
  register_event_handler, unregister_event_handler, set_provider, register_identity, unregister_got,
  unregister_if, unregister_identity, identity_or, ask_again, finish_authentication,
  authenticate_got, authenticate_if, authenticate, authorize_got, authorize_if, authorize,
  reset_metrics, clear, starts, stops, resets, clears, listens, ignores, uses, registers,
  unregisters, authenticates, authorizes, step, run, authentication_failed,
  authentication_succeeded, identity_not_found, register_if,
}

-- The number of failures is at most that of attempts, and each identity stands once, under its id.
pub record IsSound (m : SecurityManager) : Type 0 where
  pub authentications : m.authentication_failures ≤ m.authentication_count
  pub authorizations : m.authorization_failures ≤ m.authorization_count
  pub distinct : IsDistinct m.identities
  pub own_id : (id : String) (i : Identity) → lookup id m.identities ≡ some i → i.identity_id ≡ id

-- What keeps a manager sound: the identities stay, and each number of failures is still at most
-- that of attempts.
abbrev Bounds : SecurityManager → SecurityManager → Type 0
Bounds m n =
    (n.authentication_failures ≤ n.authentication_count)
    × (n.authorization_failures ≤ n.authorization_count)
    × (n.identities ≡ m.identities)

Bounds-IsSound : (m n : SecurityManager) → Bounds m n → IsSound m → IsSound n
Bounds-IsSound m n (first, second, same) v = record {
  authentications = first;
  authorizations = second;
  distinct = rw same v.distinct;
  own_id = λ id i here. v.own_id id i (sym (ap (lookup id) same) ∙ here);
}

finish-Bounds :
    (id : String) (i : Identity) (a : Answer) (m : SecurityManager)
    → m.authentication_failures + 1 ≤ m.authentication_count
    → m.authorization_failures ≤ m.authorization_count
    → Bounds m (finish_authentication id i a m).1
unfolding emit_event
finish-Bounds id i accepts m h k = (omega (arith, h), k, refl)
finish-Bounds id i rejects m h k = (h, k, refl)
finish-Bounds id i raises_type_error m h k = (h, k, refl)
finish-Bounds id i raises_authentication_error m h k = (h, k, refl)
finish-Bounds id i raises_other m h k = (h, k, refl)
finish-Bounds id i (raises_identity_not_found x) m h k = (omega (arith, h), k, refl)

authenticate_if-Bounds :
    (active : Bool) (found : Option Identity) (id : String) (credential : Option Scalar)
    (m : SecurityManager)
    → lookup id m.identities ≡ found
    → IsSound m
    → Bounds m (authenticate_if active id credential m).1
unfolding emit_event
authenticate_if-Bounds false found id credential m here v =
    (v.authentications, v.authorizations, refl)
authenticate_if-Bounds true none id credential m here v =
    let h = v.authentications in
    let counted = record m { authentication_count = m.authentication_count + 1 } in
    subst (λ o. Bounds m (authenticate_got id credential (identity_or id o) counted).1) (sym here)
      (omega (arith, h), v.authorizations, refl)
authenticate_if-Bounds true (some i) id credential m here v =
    let h = v.authentications in
    let counted = record m { authentication_count = m.authentication_count + 1 } in
    subst (λ o. Bounds m (authenticate_got id credential (identity_or id o) counted).1) (sym here)
      (finish-Bounds id i (ask_again m.provider i (m.provider.authenticate i credential)) counted
        (omega (arith, h)) v.authorizations)

authorize_got-Bounds :
    (r : Option Identity) (id : String) (p : Permission) (m : SecurityManager)
    → m.authentication_failures ≤ m.authentication_count
    → m.authorization_failures + 1 ≤ m.authorization_count
    → Bounds m (authorize_got id p (identity_or id r) m).1
unfolding emit_event
authorize_got-Bounds none id p m h k = (h, k, refl)
authorize_got-Bounds (some i) id p m h k = elim (Bool-cases (has_permission i p)) [
  | inl held ↦ rw held (h, omega (arith, k), refl)
  | inr lacks ↦ rw lacks (h, k, refl)
]

authorize_if-Bounds :
    (active : Bool) (id : String) (p : Permission) (m : SecurityManager)
    → IsSound m
    → Bounds m (authorize_if active id p m).1
authorize_if-Bounds false id p m v = (v.authentications, v.authorizations, refl)
authorize_if-Bounds true id p m v =
    let k = v.authorizations in
    authorize_got-Bounds (lookup id m.identities) id p
      (record m { authorization_count = m.authorization_count + 1 }) v.authentications
      (omega (arith, k))

register_if-IsSound :
    (active known : Bool) (i : Identity) (m : SecurityManager)
    → IsSound m
    → IsSound (register_if active known i m).1
unfolding emit_event
register_if-IsSound false known i m v = v
register_if-IsSound true true i m v = v
register_if-IsSound true false i m v = record {
  authentications = v.authentications;
  authorizations = v.authorizations;
  distinct = insert-IsDistinct i.identity_id i m.identities v.distinct;
  own_id = λ id j here. elim (Bool-cases (i.identity_id == id)) [
    | inl same ↦
        let e : i ≡ j = ground (arith, lookup-insert i.identity_id id i m.identities) in
        rw (← e) ((eq_iff i.identity_id id).0 same)
    | inr other ↦ v.own_id id j (ground (arith, lookup-insert i.identity_id id i m.identities))
  ];
}

unregister_got-IsSound :
    (id : String) (r : Option Identity) (m : SecurityManager)
    → IsSound m
    → IsSound (unregister_got id (identity_or id r) m).1
unfolding emit_event
unregister_got-IsSound id none m v = v
unregister_got-IsSound id (some i) m v = record {
  authentications = v.authentications;
  authorizations = v.authorizations;
  distinct = erase-IsDistinct id m.identities v.distinct;
  own_id = λ k j here. v.own_id k j (ground (arith, lookup-erase id k m.identities));
}

unregister_if-IsSound :
    (active : Bool) (id : String) (m : SecurityManager)
    → IsSound m
    → IsSound (unregister_if active id m).1
unregister_if-IsSound false id m v = v
unregister_if-IsSound true id m v = unregister_got-IsSound id (lookup id m.identities) m v

-- The identities and the metrics of a manager are what it is sound by.
same_numbers :
    (m : SecurityManager) (active : Bool) (hs : List Handler) (p : Provider)
    → IsSound m
    → IsSound (record m { active = active; event_handlers = hs; provider = p })
same_numbers m active hs p v =
    Bounds-IsSound m (record m { active = active; event_handlers = hs; provider = p })
      (v.authentications, v.authorizations, refl) v

step-IsSound : (op : Op) (m : SecurityManager) → IsSound m → IsSound (step op m)
unfolding step clear reset_metrics
step-IsSound starts m v = unfold start in same_numbers m true m.event_handlers m.provider v
step-IsSound stops m v = unfold stop in same_numbers m false m.event_handlers m.provider v
step-IsSound resets m v = Bounds-IsSound m (reset_metrics m) (omega arith, omega arith, refl) v
step-IsSound clears m v = record {
  authentications = omega arith;
  authorizations = omega arith;
  distinct = tt;
  own_id = λ id i here. unfold lookup in cc;
}
step-IsSound (listens h) m v =
    unfold register_event_handler in same_numbers m m.active _ m.provider v
step-IsSound (ignores h) m v =
    unfold unregister_event_handler in same_numbers m m.active _ m.provider v
step-IsSound (uses p) m v = unfold set_provider in same_numbers m m.active m.event_handlers p v
step-IsSound (registers i) m v =
    unfold register_identity in register_if-IsSound m.active (has i.identity_id m.identities) i m v
step-IsSound (unregisters id) m v =
    unfold unregister_identity in unregister_if-IsSound m.active id m v
step-IsSound (authenticates id credential) m v =
    unfold authenticate in
    Bounds-IsSound m _
      (authenticate_if-Bounds m.active (lookup id m.identities) id credential m refl v) v
step-IsSound (authorizes id p) m v =
    unfold authorize in Bounds-IsSound m _ (authorize_if-Bounds m.active id p m v) v

run_from-IsSound : (ops : List Op) (m : SecurityManager) → IsSound m → IsSound (run ops m)
unfolding run
run_from-IsSound [] m v = v
run_from-IsSound (op ∷ ops) m v = run_from-IsSound ops (step op m) (step-IsSound op m v)

-- After any calls of its methods, with any providers, a new manager has counted no more failures than
-- attempts, of authentications and of authorizations, and it has each identity once, under its id.
pub run-IsSound : (given : Option Provider) (ops : List Op) → IsSound (run ops (init given))
run-IsSound given ops = run_from-IsSound ops (init given) (record {
  authentications = omega arith;
  authorizations = omega arith;
  distinct = tt;
  own_id = λ id i here. unfold lookup in cc;
})

-- Each handler was called once more, with an event of this kind.
abbrev pub Told : EventType → Bool → String → SecurityManager → SecurityManager → Type 0
Told t success id m n =
    n.delivered
    ≡ m.delivered
      ++ map (λ h. (h, record { event_type = t; identity_id = id; success = success }))
          m.event_handlers

-- The provider raised an IdentityNotFound, asked with the credential, or without after a TypeError.
abbrev pub RaisesNotFound : Provider → Identity → Option Scalar → String → Type 0
RaisesNotFound p i credential other =
    (p.authenticate i credential ≡ raises_identity_not_found other)
    ⊎ ((p.authenticate i credential ≡ raises_type_error)
        × (p.authenticate_alone i ≡ raises_identity_not_found other))

-- What an authentication on an active manager leaves, by its result.
abbrev pub Recorded : String → Option Scalar → SecurityManager → Call Identity → Type 0
Recorded id credential m (ok i, n) =
    (n.authentication_failures ≡ m.authentication_failures)
    × Told authentication_succeeded true id m n
Recorded id credential m (err e, n) =
    ((n.authentication_failures ≡ m.authentication_failures + 1)
      × Told authentication_failed false id m n)
    ⊎ ((n.authentication_failures ≡ m.authentication_failures)
        × (n.delivered ≡ m.delivered)
        × ((i : Identity) × (other : String) × (lookup id m.identities ≡ some i)
            × (e ≡ identity_not_found other)
            × RaisesNotFound m.provider i credential other))

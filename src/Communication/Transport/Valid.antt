-- ===== src/Communication/Transport/Valid.antt =====
-- The endpoints and the counts of `LocalTransport` in core/communication/transport.py.
use core_host.Base.{
  ◌≤◌, ◌≡◌, refl, sym, ap, subst, ◌∙◌, Bool, true, false, String, Option, none, some, List, [], ◌∷◌,
  Result, if◌then◌else◌, arith, inl, inr, Bool-cases, ◌==◌,
}
use core_host.Base.Dict.{
  lookup, has, IsDistinct, insert-IsDistinct, erase-IsDistinct, has-insert, has-erase,
}
use core_host.Communication.Messages.{Message}
use core_host.Communication.Transport.{
  Handler, Reply, LocalTransport, World, Op, init, start, stop, register_if, register, unregister,
  send, clear, starts, stops, clears, registers, unregisters, sends, step, run, returns,
  returns_other, raises,
}
use core_host.Communication.Transport.Sent.{Sent, returned, send-Sent}

-- Each endpoint stands once and has a name, and no more messages were answered than sent.
pub record IsOrderly (t : LocalTransport) : Type 0 where
  pub distinct : IsDistinct t.handlers
  pub named : has "" t.handlers ≡ false
  pub counts : t.messages_received ≤ t.messages_sent

register_if-IsOrderly :
    (known : Bool) (endpoint : String) (h : Handler) (t : LocalTransport) (empty : Bool)
    → (endpoint == "") ≡ empty
    → IsOrderly t
    → IsOrderly (register_if empty known endpoint h t).1
register_if-IsOrderly known endpoint h t true e v = v
register_if-IsOrderly true endpoint h t false e v = v
register_if-IsOrderly false endpoint h t false e v = record {
  distinct = insert-IsDistinct endpoint h t.handlers v.distinct;
  named = has-insert endpoint "" h t.handlers ∙ rw (e, v.named) refl;
  counts = v.counts;
}

returned_bound : (r : Reply) → returned r ≤ 1
returned_bound raises = omega arith
returned_bound returns_other = omega arith
returned_bound (returns x) = omega arith

Sent-IsOrderly :
    (active : Bool) (found : Option Handler) (world : World) (m : Message) (t : LocalTransport)
    (done : Result _ _ × LocalTransport)
    → Sent world m active found t done
    → IsOrderly t
    → IsOrderly done.1
Sent-IsOrderly false found world m t done h v = rw h v
Sent-IsOrderly true none world m t done h v = rw h v
Sent-IsOrderly true (some g) world m t done h v = record {
  distinct = rw h.handlers v.distinct;
  named = rw h.handlers v.named;
  counts =
      let k = v.counts in
      let b = returned_bound (world t.calls g m) in omega (arith, h.sent, h.received, k, b);
}

step-IsOrderly :
    (world : World) (op : Op) (t : LocalTransport) → IsOrderly t → IsOrderly (step world op t)
unfolding step
step-IsOrderly world starts t v =
    unfold start in
    elim (Bool-cases t.active) [
      | inl on ↦ subst IsOrderly (sym (ap (λ b. if b then t else record t { active = true }) on)) v
      | inr off ↦
          subst IsOrderly (sym (ap (λ b. if b then t else record t { active = true }) off))
            (record { distinct = v.distinct; named = v.named; counts = v.counts })
    ]
step-IsOrderly world stops t v =
    unfold stop in record { distinct = v.distinct; named = v.named; counts = v.counts }
step-IsOrderly world clears t v =
    unfold clear in
    record { distinct = tt; named = unfold has in unfold lookup in refl; counts = omega arith }
step-IsOrderly world (registers endpoint h) t v =
    unfold register in
    register_if-IsOrderly (has endpoint t.handlers) endpoint h t (endpoint == "") refl v
step-IsOrderly world (unregisters endpoint) t v =
    unfold unregister in
    record {
      distinct = erase-IsDistinct endpoint t.handlers v.distinct;
      named = ground (arith, v.named, has-erase endpoint "" t.handlers);
      counts = v.counts;
    }
step-IsOrderly world (sends m) t v =
    Sent-IsOrderly t.active (lookup m.destination t.handlers) world m t (send world m t)
      (send-Sent world m t) v

run_from-IsOrderly :
    (world : World) (ops : List Op) (t : LocalTransport) → IsOrderly t → IsOrderly (run world ops t)
unfolding run
run_from-IsOrderly world [] t v = v
run_from-IsOrderly world (op ∷ ops) t v =
    run_from-IsOrderly world ops (step world op t) (step-IsOrderly world op t v)

-- For handlers that do not use the transport while they are called, and may return a message or
-- something else, or raise: after any calls of its methods, a new transport has each endpoint once,
-- none with an empty name, and has counted no more messages received than sent.
pub run-IsOrderly :
    (world : World) (listens : Bool) (ops : List Op) → IsOrderly (run world ops (init listens))
run-IsOrderly world listens ops =
    run_from-IsOrderly world ops (init listens)
      (record { distinct = tt; named = unfold has in unfold lookup in refl; counts = omega arith })

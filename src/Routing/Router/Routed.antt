-- ===== src/Routing/Router/Routed.antt =====
-- `route` of core/routing/router.py over the transport of core/communication/transport.py.
use core_host.Base.{
  ℕ, ◌+◌, ◌≡◌, refl, sym, ap, subst, Bool, true, false, String, Option, none, some, [], ◌∷◌, ◌++◌,
  Result, ok, err, arith,
}
use core_host.Base.Dict.{lookup}
use core_host.Communication.Messages.{Message}
use core_host.Communication.Transport.{
  Handler, Reply, World, Sending, returns, returns_other, raises, send,
}
use core_host.Communication.Transport.Sent.{Sent, HasSent, send-Sent}
use core_host.Routing.Router.{
  Router, RoutingError, Routing, route, route_if, route_got, route_or, record_delivery, redirect,
  router_not_running, no_route, delivery_failed,
}

-- What the caller gets for what the handler did, and how it is counted.
abbrev pub outcome : Message → Reply → Result RoutingError (Option Message)
outcome m (returns response) = ok response
outcome m returns_other = err (delivery_failed m.destination)
outcome m raises = err (delivery_failed m.destination)

abbrev pub carried : Reply → ℕ
carried (returns response) = 1
carried returns_other = 0
carried raises = 0

abbrev pub lost : Reply → ℕ
lost (returns response) = 0
lost returns_other = 1
lost raises = 1

-- The handler `h` was called with the message `m` and did `a`.
pub record HasCarried (h : Handler) (a : Reply) (m : Message) (r : Router) (done : Routing)
    : Type 0 where
  pub answer : done.0 ≡ outcome m a
  pub called : done.1.communication.calls ≡ r.communication.calls ++ (h, m) ∷ []
  pub routed : done.1.messages_routed ≡ r.messages_routed + carried a
  pub failures : done.1.routing_failures ≡ r.routing_failures + lost a
  pub routes : done.1.routes ≡ r.routes

-- The message has its new destination: whether the transport is active, and the destination's handler.
abbrev pub Carried : World → Message → Bool → Option Handler → Router → Routing → Type 0
Carried world m true (some h) r done = HasCarried h (world r.communication.calls h m) m r done
Carried world m true none r done =
    done
    ≡ (err (delivery_failed m.destination), record r { routing_failures = r.routing_failures + 1 })
Carried world m false found r done =
    done
    ≡ (err (delivery_failed m.destination), record r { routing_failures = r.routing_failures + 1 })

-- The same message for another destination.
abbrev pub IsRedirected : String → Message → Message → Type 0
IsRedirected d m n =
    (n.destination ≡ d)
    × (n.source ≡ m.source)
    × (n.message_type ≡ m.message_type)
    × (n.payload ≡ m.payload)
    × (n.message_id ≡ m.message_id)
    × (n.timestamp ≡ m.timestamp)
    × (n.request_id ≡ m.request_id)
    × (n.identity_id ≡ m.identity_id)

-- Whether the router is active, and the route for the message's type.
abbrev pub Routed : World → Message → Bool → Option String → Router → Routing → Type 0
Routed world m false found r done = done ≡ (err router_not_running, r)
Routed world m true none r done = done ≡ (err (no_route m.message_type), r)
Routed world m true (some d) r done =
    (n : Message) × IsRedirected d m n
    × Carried world n r.communication.active (lookup d r.communication.handlers) r done

record_delivery-HasCarried :
    (h : Handler) (a : Reply) (m : Message) (r : Router) (sent : Sending)
    → HasSent h a m r.communication sent
    → HasCarried h a m r (record_delivery m.destination sent r)
record_delivery-HasCarried h (returns response) m r (ok x, t) s = record {
  answer = let e = s.answer in cc;
  called = s.called;
  routed = refl;
  failures = omega arith;
  routes = refl;
}
record_delivery-HasCarried h (returns response) m r (err x, t) s = let e = s.answer in cc
record_delivery-HasCarried h returns_other m r (ok x, t) s = let e = s.answer in cc
record_delivery-HasCarried h returns_other m r (err x, t) s = record {
  answer = refl;
  called = s.called;
  routed = omega arith;
  failures = refl;
  routes = refl;
}
record_delivery-HasCarried h raises m r (ok x, t) s = let e = s.answer in cc
record_delivery-HasCarried h raises m r (err x, t) s = record {
  answer = refl;
  called = s.called;
  routed = omega arith;
  failures = refl;
  routes = refl;
}

Sent-Carried :
    (active : Bool) (found : Option Handler) (world : World) (m : Message) (r : Router)
    (sent : Sending)
    → Sent world m active found r.communication sent
    → Carried world m active found r (record_delivery m.destination sent r)
Sent-Carried false found world m r sent s = ap (λ x. record_delivery m.destination x r) s
Sent-Carried true none world m r sent s = ap (λ x. record_delivery m.destination x r) s
Sent-Carried true (some h) world m r sent s =
    record_delivery-HasCarried h (world r.communication.calls h m) m r sent s

route_if-Routed :
    (active : Bool) (found : Option String) (world : World) (m : Message) (r : Router)
    → lookup m.message_type r.routes ≡ found
    → Routed world m active found r (route_if active world m r)
route_if-Routed false found world m r here = refl
route_if-Routed true none world m r here =
    ap (λ f. route_got world m (route_or m.message_type f) r) here
route_if-Routed true (some d) world m r here =
    subst (λ f. Routed world m true (some d) r (route_got world m (route_or m.message_type f) r))
      (sym here)
      (
        redirect d m,
        (refl, refl, refl, refl, refl, refl, refl, refl),
        Sent-Carried r.communication.active (lookup d r.communication.handlers) world (redirect d m)
            r (send world (redirect d m) r.communication)
            (send-Sent world (redirect d m) r.communication),
      )

-- For handlers that do not use the transport while they are called: `route` raises and changes
-- nothing if the router is not active, or if the message's type has no route. Otherwise it sends
-- the message, unchanged but for its destination, to the destination of the route. If the transport
-- is active and has a handler for it, this handler is called once with that message, and `route`
-- returns what it returned and counts one more message routed. In every other case it raises and
-- counts one more failure.
pub route-Routed :
    (world : World) (m : Message) (r : Router)
    → Routed world m r.active (lookup m.message_type r.routes) r (route world m r)
unfolding route
route-Routed world m r = route_if-Routed r.active (lookup m.message_type r.routes) world m r refl

-- ===== src/Routing/Router/Devices.antt =====
-- `route_to_device` of core/routing/router.py.
use core_host.Base.{
  ◌+◌, ◌≡◌, refl, Bool, true, false, String, Option, none, some, ok, err, inl, inr, ◌⊎◌,
}
use core_host.Base.Chars.{blank, codes}
use core_host.Base.Dict.{lookup}
use core_host.Communication.Messages.{Message}
use core_host.Communication.Transport.{World, Sending, LocalTransport, MessageError, send}
use core_host.Devices.Records.{Status, online, offline, DeviceRecord, DeviceRegistry}
use core_host.Routing.Router.{
  Router, Routing, Sender, deliver_by, is_reachable, record_device_delivery, device_reached,
  device_got, device_addressed, device_known, route_to_device_if, route_to_device,
}

-- A registered device that is online and has a connection.
abbrev pub IsReachable : Option DeviceRegistry → String → Type 0
IsReachable devices id =
    (s : DeviceRegistry) × (d : DeviceRecord) × (c : String) × (devices ≡ some s)
    × (lookup id s.devices ≡ some d)
    × (d.status ≡ online)
    × (d.connection_id ≡ some c)

-- The transport was called once, with the message: its `deliver_to_device` if it has one, and its `send`
-- otherwise.
abbrev pub HasSent : Sender → World → Message → LocalTransport → Sending → Type 0
HasSent none world m t sent = send world m t ≡ sent
HasSent (some deliver_to_device) world m t sent = deliver_to_device m t ≡ sent

deliver_by-HasSent :
    (sender : Sender) (world : World) (m : Message) (t : LocalTransport)
    → HasSent sender world m t (deliver_by sender world m t)
deliver_by-HasSent none world m t = refl
deliver_by-HasSent (some f) world m t = refl

abbrev pub IsAnswer : Sender → World → Message → Router → Routing → Type 0
IsAnswer sender world m r (ok response, s) =
    IsReachable r.devices m.destination
    × HasSent sender world m r.communication (ok response, s.communication)
    × (s.device_messages_routed ≡ r.device_messages_routed + 1)
    × (s.device_routing_failures ≡ r.device_routing_failures)
IsAnswer sender world m r (err e, s) =
    (s.device_messages_routed ≡ r.device_messages_routed)
    × ((s.communication ≡ r.communication)
        ⊎ IsReachable r.devices m.destination
          × ((x : MessageError) × HasSent sender world m r.communication (err x, s.communication)))
    × ((r.active ≡ false) × (s ≡ r)
        ⊎ (r.active ≡ true) × (s.device_routing_failures ≡ r.device_routing_failures + 1))

reachable :
    (r : Router) (id : String) (s : DeviceRegistry) (d : DeviceRecord) (status : Status)
    (c : Option String)
    → r.devices ≡ some s
    → lookup id s.devices ≡ some d
    → d.status ≡ status
    → d.connection_id ≡ c
    → is_reachable status c ≡ true
    → IsReachable r.devices id
reachable r id s d online (some c) there here up bound h = (s, d, c, there, here, up, bound)
reachable r id s d online none there here up bound h = absurd cc
reachable r id s d offline c there here up bound h = absurd cc

module _ (sender : Sender) (world : World) (m : Message) (r : Router)
    (active : r.active ≡ true) where
  delivered :
      (sent : Sending)
      → HasSent sender world m r.communication sent
      → IsReachable r.devices m.destination
      → IsAnswer sender world m r (record_device_delivery m.destination sent r)
  delivered (ok response, t) here h = (h, here, refl, refl)
  delivered (err e, t) here h = (refl, inr (h, (e, here)), inr (active, refl))

  reached :
      (s : DeviceRegistry) (d : DeviceRecord) (b : Bool)
      → r.devices ≡ some s
      → lookup m.destination s.devices ≡ some d
      → is_reachable d.status d.connection_id ≡ b
      → IsAnswer sender world m r (device_reached b sender world m r)
  reached s d false there here h = (refl, inl refl, inr (active, refl))
  reached s d true there here h =
      delivered (deliver_by sender world m r.communication)
        (deliver_by-HasSent sender world m r.communication)
        (reachable r m.destination s d d.status d.connection_id there here refl refl h)

  got :
      (s : DeviceRegistry) (found : Option DeviceRecord)
      → r.devices ≡ some s
      → lookup m.destination s.devices ≡ found
      → IsAnswer sender world m r (device_got found sender world m r)
  got s none there here = (refl, inl refl, inr (active, refl))
  got s (some d) there here = reached s d (is_reachable d.status d.connection_id) there here refl

  addressed :
      (s : DeviceRegistry) (b : Bool)
      → r.devices ≡ some s
      → IsAnswer sender world m r (device_addressed b s sender world m r)
  addressed s true there = (refl, inl refl, inr (active, refl))
  addressed s false there = got s (lookup m.destination s.devices) there refl

  known :
      (devices : Option DeviceRegistry)
      → r.devices ≡ devices
      → IsAnswer sender world m r (device_known devices sender world m r)
  known none there = (refl, inl refl, inr (active, refl))
  known (some s) there = addressed s (blank (codes m.destination)) there

routed_if :
    (b : Bool) (sender : Sender) (world : World) (m : Message) (r : Router)
    → r.active ≡ b
    → IsAnswer sender world m r (route_to_device_if b sender world m r)
routed_if false sender world m r here = (refl, inl refl, inl (here, refl))
routed_if true sender world m r here = known sender world m r here r.devices refl

-- `route_to_device` on every branch. If it returns, the destination is a registered device that is
-- online and has a connection, the transport was called once with the message unchanged (its
-- `deliver_to_device` if it has one, and its `send` otherwise) and returned the same, and one more
-- device message counts as routed. If it raises, none counts as routed; the transport was called only
-- if the destination is such a device, and raised; and one more failure counts, unless the router is
-- not active, when nothing changes.
pub route_to_device-IsAnswer :
    (sender : Sender) (world : World) (m : Message) (r : Router)
    → IsAnswer sender world m r (route_to_device sender world m r)
unfolding route_to_device
route_to_device-IsAnswer sender world m r = routed_if r.active sender world m r refl

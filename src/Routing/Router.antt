-- ===== src/Routing/Router.antt =====
-- `Router` of core/routing/router.py: the routes by message type and the routes to the devices of a
-- registry. The transport keeps the state of a `LocalTransport`; it may have a `deliver_to_device`.
pub mod Routed
pub mod Devices
use core_host.Base.{
  ℕ, ◌+◌, Bool, true, false, String, Option, none, some, [], Result, ok, err, if◌then◌else◌, ◌==◌,
  length,
}
use core_host.Base.Dict.{Dict, lookup, insert, erase, has}
use core_host.Base.Chars.{codes, blank}
use core_host.Communication.Messages.{Message}
use core_host.Communication.Transport.{LocalTransport, World, Sending, send}
use core_host.Devices.Records.{Status, online, offline, DeviceRecord, DeviceRegistry}

pub data RoutingError : Type 0 where
  empty_message_type empty_destination router_not_running : RoutingError
  no_registry invalid_destination : RoutingError
  no_route delivery_failed device_not_found device_unavailable : String → RoutingError

pub record Router : Type 0 where
  pub communication : LocalTransport
  pub routes : Dict String
  pub active : Bool
  pub messages_routed : ℕ
  pub routing_failures : ℕ
  pub devices : Option DeviceRegistry
  pub device_messages_routed : ℕ
  pub device_routing_failures : ℕ

-- `Router(communication, device_registry)`
abbrev pub init : LocalTransport → Option DeviceRegistry → Router
init t devices = record {
  communication = t;
  routes = [];
  active = true;
  messages_routed = 0;
  routing_failures = 0;
  devices = devices;
  device_messages_routed = 0;
  device_routing_failures = 0;
}

unfoldable pub start : Router → Router
start r = if r.active then r else record r { active = true }

unfoldable pub stop : Router → Router
stop r = record r { active = false }

unfoldable pub add_route : String → String → Router → Result RoutingError (Unit {0}) × Router
add_route message_type destination r =
    if message_type == ""
    then (err empty_message_type, r)
    else if destination == ""
    then (err empty_destination, r)
    else (ok tt, record r { routes = insert message_type destination r.routes })

unfoldable pub remove_route : String → Router → Router
remove_route message_type r = record r { routes = erase message_type r.routes }

unfoldable pub has_route : String → Router → Bool
has_route message_type r = has message_type r.routes

abbrev pub route_or : String → Option String → Result RoutingError String
route_or message_type none = err (no_route message_type)
route_or message_type (some destination) = ok destination

abbrev pub get_route : String → Router → Result RoutingError String
get_route message_type r = route_or message_type (lookup message_type r.routes)

abbrev pub Routing : Type 0
Routing = Result RoutingError (Option Message) × Router

-- What follows the transport's `send` to the destination; any exception of it counts as a failure.
abbrev pub record_delivery : String → Sending → Router → Routing
record_delivery destination (ok response, t) r =
    (ok response, record r { communication = t; messages_routed = r.messages_routed + 1 })
record_delivery destination (err e, t) r = (
  err (delivery_failed destination),
  record r { communication = t; routing_failures = r.routing_failures + 1 },
)

-- `routed_message`
abbrev pub redirect : String → Message → Message
redirect destination m = record m { destination = destination }

abbrev pub route_got : World → Message → Result RoutingError String → Router → Routing
route_got world m (err e) r = (err e, r)
route_got world m (ok destination) r =
    record_delivery destination (send world (redirect destination m) r.communication) r

abbrev pub route_if : Bool → World → Message → Router → Routing
route_if false world m r = (err router_not_running, r)
route_if true world m r = route_got world m (get_route m.message_type r) r

unfoldable pub route : World → Message → Router → Routing
route world m r = route_if r.active world m r

unfoldable pub set_transport : LocalTransport → Router → Router
set_transport t r = record r { communication = t }

unfoldable pub count : Router → ℕ
count r = length r.routes

unfoldable pub clear : Router → Router
clear r = record r { routes = [] }

unfoldable pub set_device_registry : Option DeviceRegistry → Router → Router
set_device_registry devices r = record r { devices = devices }

-- `record.status == "online" and record.connection_id is not None`
abbrev pub is_reachable : Status → Option String → Bool
is_reachable online (some c) = true
is_reachable online none = false
is_reachable offline c = false

abbrev pub reaches : Option DeviceRecord → Bool
reaches none = false
reaches (some d) = is_reachable d.status d.connection_id

abbrev pub has_device_in : Option DeviceRegistry → String → Bool
has_device_in none id = false
has_device_in (some devices) id = if id == "" then false else reaches (lookup id devices.devices)

unfoldable pub has_device : String → Router → Bool
has_device id r = has_device_in r.devices id

-- Every error but that of a router that is not active counts as a failure.
abbrev pub refuse : RoutingError → Router → Routing
refuse e r = (err e, record r { device_routing_failures = r.device_routing_failures + 1 })

-- What follows the transport's `send`.
abbrev pub record_device_delivery : String → Sending → Router → Routing
record_device_delivery destination (ok response, t) r = (
  ok response,
  record r { communication = t; device_messages_routed = r.device_messages_routed + 1 },
)
record_device_delivery destination (err e, t) r =
    refuse (delivery_failed destination) (record r { communication = t })

-- What the transport's own `deliver_to_device` does, if it has one.
abbrev pub Sender : Type 0
Sender = Option (Message → LocalTransport → Sending)

abbrev pub deliver_by : Sender → World → Message → LocalTransport → Sending
deliver_by none world m t = send world m t
deliver_by (some deliver_to_device) world m t = deliver_to_device m t

abbrev pub device_reached : Bool → Sender → World → Message → Router → Routing
device_reached false sender world m r = refuse (device_unavailable m.destination) r
device_reached true sender world m r =
    record_device_delivery m.destination (deliver_by sender world m r.communication) r

abbrev pub device_got : Option DeviceRecord → Sender → World → Message → Router → Routing
device_got none sender world m r = refuse (device_not_found m.destination) r
device_got (some d) sender world m r =
    device_reached (is_reachable d.status d.connection_id) sender world m r

abbrev pub device_addressed : Bool → DeviceRegistry → Sender → World → Message → Router → Routing
device_addressed true devices sender world m r = refuse invalid_destination r
device_addressed false devices sender world m r =
    device_got (lookup m.destination devices.devices) sender world m r

abbrev pub device_known : Option DeviceRegistry → Sender → World → Message → Router → Routing
device_known none sender world m r = refuse no_registry r
device_known (some devices) sender world m r =
    device_addressed (blank (codes m.destination)) devices sender world m r

abbrev pub route_to_device_if : Bool → Sender → World → Message → Router → Routing
route_to_device_if false sender world m r = (err router_not_running, r)
route_to_device_if true sender world m r = device_known r.devices sender world m r

unfoldable pub route_to_device : Sender → World → Message → Router → Routing
route_to_device sender world m r = route_to_device_if r.active sender world m r

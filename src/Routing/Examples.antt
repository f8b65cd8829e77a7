-- ===== src/Routing/Examples.antt =====
-- A router with one route to an endpoint whose handler returns None, and one with a device registry.
use core_host.Base.{◌≡◌, refl, true, none, some, [], ◌∷◌, ok}
use core_host.Base.Chars.{blank, is_space}
use core_host.Base.Dict.{lookup}
use core_host.Communication.Messages.{Message}
use core_host.Communication.Transport.{LocalTransport, World, returns, send}
use core_host.Devices.Records.{DeviceRegistry, online}
use core_host.Data.Values.{list}
use core_host.Routing.Router.{Router, init, route, route_to_device}
use core_host.Routing.Router.Routed.{Routed, route-Routed}
use core_host.Routing.Router.Devices.{IsAnswer, route_to_device-IsAnswer}

abbrev ping : Message
ping = record {
  source = "cli";
  destination = "";
  message_type = "PING";
  payload = [];
  message_id = "m-1";
  timestamp = 5;
  request_id = none;
  identity_id = none;
}

abbrev world : World
world calls h m = returns none

abbrev transport : LocalTransport
transport = record (core_host.Communication.Transport.init true) { handlers = ("core", 1) ∷ [] }

abbrev router : Router
router = record (init transport none) { routes = ("PING", "core") ∷ [] }

route-ping : (route world ping router).0 ≡ ok none
unfolding route send lookup
route-ping = refl

route-Routed_example : Routed world ping true (some "core") router (route world ping router)
unfolding lookup
route-Routed_example = route-Routed world ping router

abbrev phones : DeviceRegistry
phones = record {
  devices =
      (
        "core",
        record {
          device_id = "core";
          device_name = "Core";
          device_type = "phone";
          platform = "linux";
          capabilities = list 0;
          status = online;
          identity_id = some "core";
          connection_id = some "c-1";
          last_seen = none;
          registered_at = 1;
          protocol_version = "0.3.0";
          join_name = [];
        },
      )
      ∷ [];
  has_store = true;
  mirrored = [];
  persisted = [];
}

abbrev device_router : Router
device_router = init transport (some phones)

abbrev to_device : Message
to_device = record ping { destination = "core" }

route_to_device-core : (route_to_device none world to_device device_router).0 ≡ ok none
unfolding route_to_device send lookup blank is_space
route_to_device-core = refl

route_to_device-IsAnswer_example :
    IsAnswer none world to_device device_router (route_to_device none world to_device device_router)
route_to_device-IsAnswer_example = route_to_device-IsAnswer none world to_device device_router

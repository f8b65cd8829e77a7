-- ===== src/Lib.antt =====
-- C.O.R.E. is a host that starts named components, assigns agents to devices, and routes events
-- between them. This library models its core as functions on explicit states: a method that
-- changes an object is a function that returns the new state, and a method that may raise returns a
-- `Result`. What comes from outside (the functions that components hand in, the clock, random ids)
-- is an argument of the definitions that use it. Locks are left out: calls are sequential.
--
-- Files:
--   Base and its children: Boolean tests, lists, Python's dict (an association list in insertion
--     order) and set (a list without repetitions), values by their `str`, sorting, results.
--   Runtime: core/runtime/state.py and core/runtime/runtime.py. Runtime/State has the fields of
--     `Runtime`, Runtime/StartOrder its `get_start_order`, Runtime/Registration the methods that set
--     up components, Runtime/Lifecycle the other methods. A
--     function that a component hands in is a number, and a `World` says what each raises after
--     the calls so far; it does not use the runtime in turn. The calls are recorded in order.
--   Runtime/History: core/runtime/history.py.
--   Resources: `Resource` and the functions that make one, of core/resources/models.py (Models);
--     core/resources/registry.py (Registry), which may have an engine of
--     core/organization/engine.py (Organization); the ingestion of one stored resource, of
--     core/organization/ingestion.py (Ingestion).
--   Scheduler: core/scheduler/models.py (Models) and core/scheduler/scheduler.py (Profiles, Agents,
--     with the default profiles in Agents/Defaults), and core/scheduler/capability_router.py
--     (CapabilityRouter, with the profiles that it ships with in CapabilityRouter/Defaults).
--   Events/Bus: core/events/bus.py. A handler is given by a tree of what it does with the bus while it
--     is called, publications among them (`Behaviour`). The deliveries are recorded in order.
--   Health: core/health/models.py (Models) and core/health/monitor.py (Monitor). A check does not use
--     the monitor while it is called.
--   Security: core/security/models.py (Models), provider.py (Provider), manager.py (Manager) and
--     policy.py (Policy).
--   Communication: `Message` of core/communication/models.py (Messages) and `LocalTransport` of
--     core/communication/transport.py (Transport). A handler does not use the transport while it is
--     called.
--   Devices: core/communication/devices.py, with the registration payload of
--     core/communication/protocol.py (Payloads). The records (Records), how they get in (Registry) and
--     what becomes of them (Presence); the join names (Names).
--   Routing/Router: core/routing/router.py. Its transport has the state of the local one; the
--     `deliver_to_device` that a transport may have is an argument.
--   Services: core/services/models.py and manager.py (Manager), and dispatch.py (Requests, Dispatch),
--     which asks Security before it calls an operation.
--   Data: core/data/requests.py (Requests) and core/data/normalize.py (Pages, Normalize).
--   Version: core/version.py.
-- The modules Examples hold the concrete inputs to which the theorems are applied.
--
-- Fuel: `visit` in Runtime/StartOrder takes fuel for the depth of its recursion. It is given one more
-- than the number of components, which is enough because the components that are being visited are
-- registered and differ from each other. The loop in Devices/Names has one round for each code point of
-- the text, since each of its rounds takes one away.
--
-- Not modelled: the application, the command line, the TCP server, the portal and web gateways, the
-- configuration, the data organizer and the adapter of the repository, which are mostly input and
-- output, the start and stop of services, and the reconciliation with the stored resources.
pub mod Base
pub mod Communication
pub mod Data
pub mod Devices
pub mod Events
pub mod Health
pub mod Resources
pub mod Routing
pub mod Runtime
pub mod Scheduler
pub mod Security
pub mod Services
pub mod Version

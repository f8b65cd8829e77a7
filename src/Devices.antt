-- ===== src/Devices.antt =====
-- The devices that register with the host: core/communication/devices.py and the payloads of
-- core/communication/protocol.py.
pub mod Payloads
pub mod Names
pub mod Records
pub mod Registry
pub mod Presence
pub mod Roster
pub mod Run
pub mod Reconnect
pub mod Label
mod Examples

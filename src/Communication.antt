-- ===== src/Communication.antt =====
-- Messages between endpoints: core/communication.
pub mod Messages
pub mod Transport
mod Examples

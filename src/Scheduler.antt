-- ===== src/Scheduler.antt =====
-- core/scheduler/: the agents that devices are assigned to.
pub mod Models
pub mod Profiles
pub mod Agents
pub mod CapabilityRouter
mod Examples

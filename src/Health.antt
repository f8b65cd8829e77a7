-- ===== src/Health.antt =====
-- The health of components: core/health.
pub mod Models
pub mod Monitor
mod Examples

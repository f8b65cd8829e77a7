-- ===== src/Routing.antt =====
-- Messages by their type: core/routing.
pub mod Router
mod Examples

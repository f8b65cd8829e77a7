-- ===== src/Security.antt =====
-- Identities, permissions and authentication: core/security.
pub mod Models
pub mod Provider
pub mod Manager
pub mod Policy
mod Examples

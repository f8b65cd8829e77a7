-- ===== src/Services.antt =====
-- The services of the host: core/services/models.py, manager.py and dispatch.py.
pub mod Manager
pub mod Requests
pub mod Dispatch
mod Examples

-- ===== src/Resources.antt =====
-- core/resources/: the resources that the host knows, and core/organization/: the entries by which
-- they are found.
pub mod Models
pub mod Organization
pub mod Registry
pub mod Ingestion
mod Examples

-- ===== src/Data.antt =====
-- What devices ask of the data of the host: core/data.
pub mod Values
pub mod Requests
pub mod Pages
pub mod Normalize
mod Examples

-- ===== src/Runtime.antt =====
-- The runtime of core/runtime/: the states and the object, the start order, the operations; and
-- what is proved of each.
pub mod State
pub mod StartOrder
pub mod Registration
pub mod Lifecycle
pub mod History
mod Examples

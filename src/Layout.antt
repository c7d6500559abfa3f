-- ===== src/Layout.antt =====
-- Where the variables of a contract and the fields of its structures lie in storage.
pub mod Types
pub mod Contract
pub mod Disjoint
pub mod Meta
pub mod Struct
pub mod Agree
pub mod Overlap
pub mod Slot
pub mod Resolve
mod Examples

-- ===== src/Proof.antt =====
-- The local copy of a contract's storage trie and the table that keeps it.
pub mod Store
pub mod Slots
pub mod Unread
pub mod Reload
mod Examples

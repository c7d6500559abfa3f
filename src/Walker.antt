-- ===== src/Walker.antt =====
-- The walk over a contract's functions (slither/tools/contract_abstract/contract/contract_walker.py).
pub mod Paths
pub mod Maximal
pub mod Acyclic
pub mod Loops
pub mod Splice
pub mod Patterns
pub mod Modes
mod Examples

-- ===== src/Tables.antt =====
-- The database tables that hold a contract's storage
-- (slither/tools/contract_abstract/onchain/storage_info.py).
pub mod Select
pub mod Meaning
pub mod Selected
pub mod Write
pub mod Updated
pub mod Written
pub mod Given
pub mod Pinned
pub mod Columns
pub mod Create
pub mod Fits
pub mod KeyColumns
pub mod Init
pub mod Start
pub mod Filled
pub mod Finished
pub mod Collect
pub mod Wanted
pub mod Facts
pub mod Reimport
mod Examples
mod KeyExamples

-- ===== src/Sync.antt =====
-- Following the deployed contract: transactions from the API, the database and the service loop.
pub mod Etherscan
pub mod OnePage
pub mod Connect
pub mod Retry
pub mod Order
pub mod Pages
pub mod Complete
pub mod Save
pub mod Keys
pub mod Saved
pub mod Service
pub mod CaughtUp
pub mod Monitor
pub mod Followed
pub mod Blocks
pub mod Ranges
pub mod Latest
pub mod Starts
mod Examples

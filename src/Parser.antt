-- ===== src/Parser.antt =====
-- The abstract interpretation of SlithIR operations
-- (slither/tools/contract_abstract/contract/slitherir_parser.py and context.py).
pub mod Memory
pub mod Variables
pub mod Names
pub mod Contexts
pub mod References
pub mod Values
pub mod Irs
pub mod Members
pub mod Operations
pub mod Calls
pub mod Parse
pub mod Clear
pub mod Walk
pub mod Grows
pub mod Kept
pub mod Recorded
pub mod MembersKept
pub mod OperationsKept
pub mod Recording
pub mod Walking
pub mod Flat
pub mod Entered
pub mod NamesAgree
pub mod Enough
pub mod Objects
pub mod Sharing
pub mod Fields
pub mod Raises
pub mod Cleared
pub mod Items
mod Examples

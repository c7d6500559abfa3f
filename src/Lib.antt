-- ===== src/Lib.antt =====
-- Verification of the contract abstraction tool (slither/tools/contract_abstract) and of the parts
-- of Slither that it rests on. The tool analyses a contract, writes a manifest of its storage
-- variables and of the storage that each function writes, and follows the deployed contract:
-- it reads transactions and storage slots and keeps them in database tables.
--
-- Parts and files:
-- - Expr models `Entity.parse_expr`, `parse_expr_internal`, `find_next_elem`,
--   `find_matching_bracket` and `expr_to_string` of contract/entity.py: storage expressions such as
--   `reserves[asset].configuration`. A Python `str` is the list of its code points, a dict {"name",
--   "index", "field"} a value of `Expr`, an exception an `err`. Each call of the recursive parser
--   costs a unit of fuel; the length of the text plus one is handed out and is enough. Expr/Access
--   is the grammar that the parser is proved against; it is no code of the program. What Python
--   prints for a dict inside an f-string is the parameter `repr`.
-- - Layout models where variables lie in storage: Layout/Types the sizes of Solidity types
--   (`storage_size` in slither/core/solidity_types), Layout/Contract
--   `SlitherCompilationUnit._compute_storage_layout` (slither/core/compilation_unit.py), Layout/Meta
--   and Layout/Struct the type dicts of the manifest and the field offsets of
--   `Entity.get_slot_info_for_structure`. Offsets are in bytes in Layout/Contract and in bits in
--   Layout/Struct, as in the code. `math.log2` in the size of an enum is modelled for at most 256
--   values, as Solidity allows. Layout/Slot is `get_storage_slot_info_from_expr` and
--   `get_field_from_expr`, the slot and the type of an expression; the hash functions and the
--   conversions of keys are parameters.
-- - Sync follows the deployed contract. Sync/Etherscan is `TransactionInfo._get_transactions` and
--   `get_transactions_from_etherscan` (onchain/transaction_info.py), a run over the answers that the
--   API gives, one for each request; a run that has used them up is `waiting`. Sync/Save is
--   `save_transactions_to_db` on the table as a list of rows, with Python's `int` and the database's
--   checks of column types as parameters. Sync/Pages is pagination, with what ORDER BY makes of the
--   selected rows in each query as a parameter (Sync/Order says what the clause promises); its fuel is
--   the number of rows plus one. Sync/Service is the catch-up loop of
--   transaction_service.py; its fuel is the latest block plus one, and both are enough. Sync/Monitor
--   is the loop behind it that waits for new blocks, over rounds of answers. Sync/Blocks holds the
--   queries for block numbers and the start of `main` (Sync/Starts says where it leads). Sync/Connect is `connect_db` over the answers
--   of the database. Logging and the delays between requests are left out.
-- - Walker models parts of `ContractWalker` (contract/contract_walker.py). Walker/Paths is
--   `get_all_paths` over a control-flow graph that is a parameter; fuel stands for the depth of the
--   recursion, and the results say how much is enough. Walker/Splice is how `walk_path` puts the
--   paths of a called function in the place of the call, Walker/Patterns `get_pattern_mode` and the
--   names of setters.
-- - Parser models `SlitherIRParser` (contract/slitherir_parser.py), the abstract interpretation of
--   SlithIR, and `AbstractContext` (contract/context.py). Variables share contexts and contexts
--   share lists, so Parser/Memory is a store of objects by address, and an operation an action on
--   it that gives nothing where Python raises. Sets of texts are lists, read by membership. A
--   variable of Slither is a number; its description (Parser/Variables) is a parameter, and so is
--   what `str` makes of a list. Parser/Contexts has the reads and writes that are recorded,
--   Parser/References writing through references, Parser/Members, Operations and Calls the
--   branches of `parse`, which Parser/Parse puts together, Parser/Clear `clear_context` and
--   `close`, and Parser/Walk `walk_path`, which walks a path with the parser up to a call (its
--   place among the paths is Walker/Splice). The recursion into lists has twice the number of
--   objects and one as fuel; only a list that holds itself needs more.
-- - Proof models the table of `StorageProof` (onchain/storage_proof.py) that keeps the local copy of
--   a contract's storage trie for a block. The trie library, `pickle` and the hex encoding are
--   parameters, with what the code relies on in `Documented`. Proof/Slots is the update, the reading
--   and the proving of single slots, over the library functions of the record `Library`.
-- - Tables models the tables of storage values of `StorageInfo` (onchain/storage_info.py).
--   Tables/Columns and Tables/Create are the columns of a manifest and the statements that
--   `create_init_tables` runs, Tables/Init and Tables/Start the first filling of the tables as the
--   list of the calls it makes, Tables/Wanted `get_all_keys_for_mapping`, Tables/Facts the export
--   and the import of its result, Tables/Select `read_elements_from_table` with what the database
--   does with its clause, Tables/Write `write_elements_to_table` on the list of a table's rows.
--   Parameters are the database's tests of values, its checks of a query and of a statement and its
--   list of primary keys, whether a value can be read from the chain and a statement meets no
--   exception, keccak and `decode_input`. Whether a step of the filling works is a function of the step. A Python set is a list, read by
--   membership. `math.ceil(n * math.log10(2))` is the least number of decimal digits for `n` bits;
--   its search has `n` as fuel, which is enough.
-- - Server models `DatabaseManager` (database_manager.py) on a machine that commands, connections
--   and statements change; what they do is a parameter.
-- - Prelude has the shared names, Boolean tests, lists, texts and Python's `int`. Each part has its
--   tests, runs at fixed inputs, in a module Examples.
--
-- The parts meet where the code does: Layout/Slot parses its expressions with Expr and finds fields
-- with Layout/Struct; the loops of Sync/Service and Sync/Monitor fetch with Sync/Etherscan and store
-- with Sync/Save. Tables/Wanted parses with Expr, reads types from Layout/Slot and pages with
-- Sync/Pages; Tables/Init finds fields with Layout/Struct.
--
-- Not modelled: of onchain/storage_info.py the connection, which repeats that of the transactions,
-- and the unfinished synchronisation by transactions; the calls of onchain/storage_proof.py that
-- only hand on answers of the node; the bitmaps of contract/slitherir_parser.py, which are
-- expressions of z3, and the outer loop `walk` with what it collects for its utilities; web3
-- calls, logging and the command line, which only pass values on; and the rest of Slither, which
-- the tool uses as it is.
pub mod Prelude
pub mod Expr
pub mod Layout
pub mod Sync
pub mod Proof
pub mod Server
pub mod Tables
pub mod Walker
pub mod Parser

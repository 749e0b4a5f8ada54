-- ===== src/Consensus.antt =====
-- The consensus package: the chain state, the validation of headers, transactions and blocks, the
-- application of blocks, and the chain of headers under examination.
pub mod State
pub mod Errors
pub mod Validation
pub mod Blocks
pub mod Header
pub mod Update
pub mod Apply
pub mod Scratch

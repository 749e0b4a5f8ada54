-- ===== src/Merkle.antt =====
-- merkle/accumulator.go: leaf and node hashes, proofs and the accumulator.
pub mod Bits
pub mod Hash
pub mod Forest
pub mod Accumulator
pub mod History
pub mod Update
pub mod Elements

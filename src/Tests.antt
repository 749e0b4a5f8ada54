-- ===== src/Tests.antt =====
-- Concrete data, the runs of the operations on it, and the theorems at it.
mod Data
mod Amounts
mod Trees
mod Updates
mod Applied
mod Pools
mod Reorgs
mod Managers
mod Headers
mod Funds
mod Codec
mod Blocks

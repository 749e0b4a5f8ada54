-- ===== src/Lib.antt =====
-- Verification of the core of sunyata, a proof-of-work blockchain node in Go.
--
-- The program keeps a chain of blocks. A block has a header (height, parent, nonce, time, miner,
-- commitment) and transactions, which spend elements of a Merkle accumulator and create new
-- ones. A State is what is needed to validate the next block: the accumulators, the difficulty
-- and the last timestamps. ValidateBlock decides on a block, ApplyBlock makes the next state.
--
-- Common: names from the libraries, Boolean tests, lists over the native numbers, outcomes of
--   fallible code (a value, an error or a panic), 64-bit words with their wrap-around.
-- Currency: currency.go, 128-bit amounts in two words. Currency/Arithmetic and Currency/Division
--   compare it with arithmetic on the number of base units.
-- Types, Identity: the data of sunyata.go and its identifiers (Transaction.ID, BlockHeader.ID,
--   PublicKey.Address). Encoding: the EncodeTo methods of encoding.go, as lists of bytes;
--   Encoding/Decoder: the DecodeFrom methods, on the rest of a stream.
-- Work: the type Work of sunyata.go, WorkRequiredForHash, HashRequiringWork and MeetsTarget.
-- Merkle: merkle/accumulator.go. Merkle/Forest is the specification: the perfect trees over an
--   unbounded sequence of leaf hashes, and the paths in them. Merkle/Accumulator is the code of
--   containsLeaf and addLeaves, and its children relate the two. Merkle/Update is updateLeaves:
--   Update/Subtree is about its inner function on one tree, Update/Groups about the sort and the
--   grouping by tree, Update/Trees about the loop over the trees, Update/Overwrite about the
--   whole. Merkle/Elements: updateProof, ApplyBlock, RevertBlock and UpdateElementProof.
--   Merkle/History: the accumulator of the indices of the chain.
-- Consensus/State: consensus/state.go. Consensus/Validation: the checks of one transaction and
--   of a header in consensus/validation.go. Consensus/Blocks: its checks of sets and blocks.
--   Consensus/Header, Consensus/Update and Consensus/Apply: consensus/update.go, with
--   adjustDifficulty and applyHeader, updatedInBlock and createdInBlock, ApplyBlock, RevertBlock
--   and UpdateTransactionProofs. Consensus/Scratch: consensus/scratch.go.
-- Chain: chain/manager.go. Chain has the store of the manager as an interface and reorgPath,
--   Chain/History is Manager.History, Chain/Manager is reorgTo with revertTip and applyTip; its
--   children are about the two steps and about the whole.
-- TxPool: txpool/txpool.go. The map of transactions is an association list.
-- Wallet: the TransactionBuilder of wallet/wallet.go, with the Store and the keys of the seed as
--   parameters. Wallet/Funding is about the choice of elements, Wallet/Inputs and Wallet/Balance
--   about Fund, Wallet/Signing and Wallet/Signed about SignTransaction.
-- Tests: concrete data, and the theorems at it.
--
-- SHA-512/256 and the check of Ed25519 signatures are fields of the parameter Crypto; nothing is
-- assumed of them. Arrays of 32 bytes are lists of bytes, a time is a number of nanoseconds, a
-- Work is four words. An array of 64 tree roots is a function of the height. Loops are
-- structural recursion on lists; the walk over the heights of an accumulator has fuel 64, the
-- number of heights, which is enough while there are fewer than 2^64 leaves.
--
-- A grouping loop has as many rounds as there are leaves, and the loops of reorgPath and reorgTo
-- as many as the heights of the blocks, and History has 72, since the spacing doubles.
--
-- Not modelled: multiproofs; the operations of the chain manager that add headers, blocks and
-- subscribers; text and JSON forms; the network, the command line, and the stores on disk, which
-- are input and output around the core.
pub mod Chain
pub mod Common
pub mod Consensus
pub mod Currency
pub mod Encoding
pub mod Identity
pub mod Merkle
pub mod Tests
pub mod TxPool
pub mod Types
pub mod Wallet
pub mod Work

-- ===== src/Lib.antt =====
-- Verification of plairo, a simplified Bitcoin node in Go.
--
-- The program. A node keeps the unspent outputs of all transactions in a database (db/), checks new
-- transactions against them (core/transaction.go), keeps the accepted ones in a mempool ordered by
-- fee (core/mempool.go) and puts them into blocks (core/block.go), which it links
-- (core/blockchain.go). core/ reaches the database through an interface that db/chainstate.go
-- implements; utils/ has the encodings that both use.
--
-- Where each part stands. Functions keep the source's names in snake case.
--   Common           lists, Booleans and slices over native numbers; Common.Tests has the Boolean
--                    tests, Common.Slices the Go slice expressions
--   Utils.Serializer utils/serializer.go: integers to bytes and back
--   Utils.OneHot     utils/serializer.go: SerializeToOneHot, the bit packing
--   Utils.Merkle     utils/merkle.go: ComputeMerkleRoot
--   Utils.Target     utils/target.go: ExpandBits
--   Utils.Retarget   utils/target.go: ApplyCoeffToTarget
--   Utils.Strings    utils/string.go: keys to text and back
--   Core.Output      core/transaction_output.go
--   Core.Transaction core/transaction.go: NewTransaction, Serialize, SerializeTXMetadata, IsSpent
--   Core.Fees        core/transaction.go, coin/fee.go, params/config.go: fees and valid amounts
--   Core.Validate    core/transaction.go: ValidateTransaction, gatherSignatureDataForInput;
--                    utils/keys.go: VerifySignature
--   Core.Signing     core/transaction.go: NewCoinbaseTransaction, signInput; utils/keys.go:
--                    GenerateKeyPair, GenerateSignature
--   Core.CState      core/transaction.go: the interface CState
--   Core.Metadata    core/txmetadata_reader.go
--   Core.MemTree     core/mempool.go: the AVL tree of fees, whose nodes carry a chain of the
--                    transactions with the same fee
--   Core.Mempool     core/mempool.go: the mempool around the tree
--   Core.Header      core/block.go: BlockHeader, ValidateBlockHeader; core/block_header_reader.go
--   Core.Block       core/block.go: Block, its serialization, undo record, fees and Merkle root
--   Core.BlockCheck  core/block.go: ValidateBlockTx, ConfirmAsValid, ValidateCoinbase, ValidateBlock;
--                    core/transaction.go: cleanUpInputs
--   Core.Mining      core/block.go: MineBlock
--   Core.Blockchain  core/blockchain.go: the chain, its forks, InsertBlock
--   Core.Retarget    core/block.go: GetTargetForBlock, calculateTargetForBlock
--   Db.Wrapper       db/dbwrapper.go: obfuscation, batches, values on several pages
--   Db.Chainstate    db/chainstate.go; Db.Chainstate.UtxoSet has the set of unspent outputs that a
--                    chainstate stands for, and what RemoveUtxo, the batch and ConfirmAsValid do to it
--   Db.Opening       db/dbwrapper.go: NewDBwrapper, the obfuscation key
--   Db.BlockStorage  db/block_storage.go and db/block_index.go
--   Tests            runs at concrete inputs
--
-- How code becomes definitions. A struct is a record, a slice a list, and a byte a number below 256
-- where a theorem says so (`IsByte`). Integers of 32 and 64 bits are natural numbers with `% 2 ^ 32`
-- and `% 2 ^ 64` where the source computes with them; a timestamp is the bit pattern of its int64. A
-- function that can panic (a slice or an index out of range, a nil pointer) returns `Option`, or a
-- type with a value for the panic where it has errors too. A pointer to an output or a transaction
-- is passed by value, and a tree node is a node of a data type: the tree functions return the new
-- root, as the source's do. A method that changes its receiver returns the new one. A slice has no
-- capacity behind its length, save in `PageInsert`, where the append into the rest of the value is
-- written out (`overwrite_first`); the maps `dedup` and `outsReferenced` are the lists of their keys,
-- and `txmap` is an association list.
--
-- The package variables `mempool` and `cstate` are the record `World`, which the block functions
-- take and return, and `BStorage` stands beside it in `Ledger`. The nodes of the chain are shared by
-- pointers: they stand in a list in the order of their allocation, and a pointer is an index of it.
-- `Outcome` is a call that returns, panics, or goes on past its fuel.
--
-- Parameters. SHA-256 (`sha256`), ECDSA and the key encoding (the records `Ecdsa`, `Signer` and
-- `KeyCodec`, whose laws `IsSound` and `IsCodec` say that a signature verifies and that a key
-- parses from its encoding), goleveldb (the record `LevelDb` with the laws `IsStore`: a key reads
-- back the last value put, a deleted one reads back nothing, and other keys are left alone; where
-- a batch is written, `IsBatchStore`: its writes count in order), float64 (the record `Float64` with the laws `IsFloat64`), the
-- result of `leveldb.OpenFile`, the random number of an obfuscation key, and the clock of
-- `ValidateBlockHeader`. The interfaces CState and iStorage are records too;
-- `Db.Chainstate.Interface` is the chainstate as a `CState`, `Db.BlockStorage.Interface` the block
-- storage as an `IStorage`. `ValidateBlock` and `InsertBlock` take the header check as an
-- argument, since `validate_block_header` does not come to an end; `Core.BlockCheck.Endless`
-- and `Core.Blockchain.OwnHeader` give them that function.
--
-- Fuel. `remove_record` starts with one more than the number of nodes, and each of its calls is on a
-- smaller tree. `page_insert` has one round more than the value has bytes, and each round takes a
-- page off. `page_get` has 257 rounds: the page number is a byte, so that after 256 full pages the
-- same ones are read again without end. `validate_block_header` takes its depth as an argument, and so
-- does `compute_merkle_root`, for which the number of hashes is enough. The loop
-- of `MineBlock` has at most 31 rounds of all nonces: one, and one for each bump of the timestamp.
--
-- Not modelled. IterateBlockTx sends on a channel. Closing a database changes nothing that is
-- stored. The paths under the home directory are chosen when a package is loaded. The prints of
-- ApplyCoeffToTarget are left out. utils/hash.go is the parameter `sha256`.
pub mod Common
pub mod Core
pub mod Db
pub mod Tests
pub mod Utils

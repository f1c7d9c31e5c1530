-- ===== src/Core.antt =====
-- The package core.
pub mod Output
pub mod Transaction
pub mod Metadata
pub mod Fees
pub mod MemTree
pub mod Header
pub mod Validate
pub mod Mempool
pub mod Signing
pub mod CState
pub mod Block
pub mod BlockCheck
pub mod Mining
pub mod Blockchain
pub mod Retarget

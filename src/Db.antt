-- ===== src/Db.antt =====
-- The package db.
pub mod Wrapper
pub mod Chainstate
pub mod Opening
pub mod BlockStorage

-- ===== src/Tests.antt =====
-- The development's tests.
mod Encodings
mod Pool
mod Headers
mod Store
mod Validation
mod Unspent
mod Spending
mod Roots
mod Signing
mod Removal
mod Blocks
mod Endless
mod Confirmation
mod Ledgers
mod Insertion
mod Storage
mod Texts
mod Targets

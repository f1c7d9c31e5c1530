-- ===== src/Utils.antt =====
-- The package utils: serializer.go, merkle.go, num.go, target.go, string.go.
pub mod Serializer
pub mod OneHot
pub mod Target
pub mod Retarget
pub mod Strings
pub mod Merkle

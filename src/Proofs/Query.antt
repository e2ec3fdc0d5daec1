-- ===== src/Proofs/Query.antt =====
-- src/proofs/query/mod.rs: queries over proofs.
pub mod Map
pub mod Verify
pub mod Item
pub mod Insert
pub mod Create
pub mod Output

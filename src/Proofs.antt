-- ===== src/Proofs.antt =====
-- src/proofs/mod.rs: the operators of a proof.
mod Examples
pub mod Encoding
pub mod Tree
pub mod Query
pub mod Chunk
use merk.Bytes.{Bytes}

pub data Node : Type 0 where
  hash : Bytes → Node
  kv_hash : Bytes → Node
  kv : Bytes → Bytes → Node

pub data Op : Type 0 where
  push : Node → Op
  parent : Op
  child : Op

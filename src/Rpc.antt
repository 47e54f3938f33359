-- ===== src/Rpc.antt =====
-- internal/rpc: JSON-RPC 2.0 messages, their ids, errors and batches.
pub mod Id
pub mod Error
pub mod Message
pub mod Json
pub mod Batch

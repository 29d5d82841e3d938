-- ===== src/Tests.antt =====
-- Concrete inputs, and the theorems applied to them.
mod Data
pub mod Session
pub mod Router
pub mod Keyset
pub mod Receipts
pub mod Upstream
pub mod Streaming
pub mod Builder
pub mod Service
pub mod Gateway
pub mod Direct

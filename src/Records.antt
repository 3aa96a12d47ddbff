-- ===== src/Records.antt =====
-- The documents that orch/engine.py keeps and the state it keeps them about. A document's fields
-- are those that the workflow reads; identifiers and SHA-256 digests are numbers.
mod Clock
mod Documents
mod Tasks
unfoldable pub use Clock.*
unfoldable pub use Documents.*
unfoldable pub use Tasks.*

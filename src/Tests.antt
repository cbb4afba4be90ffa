-- ===== src/Tests.antt =====
-- Concrete inputs on which the theorems' hypotheses hold (kernel/).
pub mod Dicts
pub mod Data
pub mod Sqlite
pub mod Capability
pub mod Audit
pub mod Objects
pub mod Transactions
pub mod Version
pub mod Runtime
pub mod Sessions
pub mod Renderer
pub mod Terminal
pub mod Ipc

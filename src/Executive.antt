-- ===== src/Executive.antt =====
-- tuxedo-core/src/executive.rs: validation and execution of transactions and blocks.
pub mod Runtime
pub mod Validation
pub mod Facts
pub mod Validity
pub mod Ledger
pub mod History
pub mod DoubleSpend
pub mod Frame
mod Authoring
pub mod Agreement
pub mod Inherents
pub mod Application
pub mod Blocks
pub mod Writes
pub mod Preparation
mod Tests

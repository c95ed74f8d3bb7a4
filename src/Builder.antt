-- ===== src/Builder.antt =====
-- core/builder.go: the SQL builder.
pub mod Joins
pub mod Replace
pub mod State
pub mod Build
pub mod Numbering
pub mod Balance
pub mod Calls
pub mod Statements
pub mod Inserts
pub mod Chains
pub mod Reuse
mod Tests

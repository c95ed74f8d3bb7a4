-- ===== src/Query.antt =====
-- core/query.go: the operations that write.
pub mod Step
pub mod Values
pub mod Write
pub mod Batch
pub mod Scan
pub mod Read
mod ReadSteps
mod ReadLaws
pub mod Fluent
pub mod Fill
pub mod Paged
mod PagedLaws
pub mod Once
pub mod Laws
pub mod Stored
pub mod BatchLaws
mod Tests
pub mod ReadTests
mod PagedTests

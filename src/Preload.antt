-- ===== src/Preload.antt =====
-- core/preload.go: the loading of related objects after the objects of a query.
pub mod Keys
pub mod Groups
pub mod Load
pub mod Execute
pub mod Selected
pub mod Laws
pub mod References
pub mod Joined
mod Tests

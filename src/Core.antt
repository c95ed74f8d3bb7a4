-- ===== src/Core.antt =====
-- The engine of core/: connection, health, transactions, migrations, the middleware chain.
pub mod Health
pub mod Retry
pub mod Open
pub mod Transaction
pub mod Tx
pub mod Chain
pub mod Migrate
pub mod MigrateLaws
pub mod Paginate
pub mod Schema
pub mod SchemaLaws
pub mod IndexRows
mod SchemaTests
mod Tests

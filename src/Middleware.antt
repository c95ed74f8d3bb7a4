-- ===== src/Middleware.antt =====
-- middleware/ and the chain of core/query.go that runs it.
pub mod Breaker
pub mod Cache
pub mod SlowLog
mod SlowLogLaws
mod SlowLogTests
pub mod Tracing

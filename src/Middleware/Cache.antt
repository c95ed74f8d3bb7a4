-- ===== src/Middleware/Cache.antt =====
-- The query caches of middleware/: the key, the lifetime, and the memory, file and Redis caches.
pub mod Key
pub mod Ttl
pub mod Memory
pub mod MemoryLaws
pub mod Serving
pub mod File
pub mod Redis
pub mod FileLaws
mod Tests
mod FileTests

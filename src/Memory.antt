-- ===== src/Memory.antt =====
-- The in-memory backends of internal/adapters/storage/memory and internal/adapters/cache/memory.
pub mod Users
pub mod Sessions
pub mod Cache
pub mod Resets
pub mod Tests

-- ===== src/Cache.antt =====
-- shutils/cache.py: persistence with auto-save, the two caches over it, and the wrappers that look
-- a call up before making it.
pub mod Dict
pub mod Persist
pub mod Ttl
pub mod Lru
pub mod Wrapper
mod Tests

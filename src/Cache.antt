-- ===== src/Cache.antt =====
-- The caches.
pub mod Links
pub mod Table
pub mod Lru
pub mod Sized

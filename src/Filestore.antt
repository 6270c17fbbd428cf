-- ===== src/Filestore.antt =====
-- The filestore (internal/filestore).
pub mod Chunks
pub mod Packs
pub mod Blobs
pub mod Repack
pub mod Batch
pub mod Objects
pub mod Gc
pub mod Delete

-- ===== src/Paged.antt =====
-- The disk-paged hash of lib/xxfs.c: its pages, and their cache.
pub mod Cache
pub mod Dir
pub mod Entries
pub mod Hash
pub mod Index
pub mod Page
pub mod Slots

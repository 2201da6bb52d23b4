-- ===== src/Storage.antt =====
-- src/storage: what is kept on disk.
pub mod CoverCache
pub mod Database
pub mod SecureStore
pub mod Examples

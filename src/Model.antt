-- ===== src/Model.antt =====
-- src/model: what the screens show of the library, the bookmarks and the progress.
pub mod Bookmarks
pub mod Paging
pub mod Shelves
pub mod Progress
pub mod Examples

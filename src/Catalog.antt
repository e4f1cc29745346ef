-- ===== src/Catalog.antt =====
-- internal/catalog: the server's fixed content.
pub mod Blocks
pub mod Bank
pub mod Lessons
pub mod Topics
pub mod Served

-- ===== src/Storage.antt =====
-- runtime/storage: the cached repository over the database.
pub mod Cache
pub mod Database
pub mod Repository
pub mod Attributes

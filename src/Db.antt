-- ===== src/Db.antt =====
-- src/db: requests and responses, and who runs which request when.
pub mod Types
pub mod Dispatcher
pub mod Worker
pub mod Mysql
pub mod Pool

-- ===== src/Storage.antt =====
-- pkg/storage/db.go: the tables, the database that the repository calls, and the repository.
pub mod Rows
pub mod Database
pub mod Repository
pub mod Memory
pub mod Enforced
pub mod Queries
pub mod Statistics
pub mod Setup

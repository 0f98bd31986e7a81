-- ===== src/Driver.antt =====
-- src/driver: the pieces of the drivers that do not call a database.
pub mod Defaults
pub mod Postgres
pub mod Numbered

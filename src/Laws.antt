-- ===== src/Laws.antt =====
-- What each dialect keeps: all of its texts but the placeholders close their quotes and show no
-- placeholder.
pub mod Keeps
pub mod Sqlite
pub mod Postgres
pub mod Mysql
pub mod Mssql
pub mod Oracle
pub mod Informix

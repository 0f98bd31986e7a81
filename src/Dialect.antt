-- ===== src/Dialect.antt =====
-- include/cpplinq/dialect/dialect.h: the interface ISqlDialect and its default methods, over the
-- methods quote_id and placeholder that each dialect gives. The dialects are the child modules.
pub mod Quote
pub mod Sqlite
pub mod Postgres
pub mod Mysql
pub mod Mssql
pub mod Oracle
pub mod Informix

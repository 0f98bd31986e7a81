-- ===== src/Generator.antt =====
-- src/sql_generator.cpp and include/cpplinq/core/sql_generator.h: the SQL generator.
pub mod State
pub mod Visit
pub mod Select
pub mod SetOps
pub mod Modify
pub mod Schema
pub mod Request

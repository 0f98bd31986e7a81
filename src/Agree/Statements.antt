-- ===== src/Agree/Statements.antt =====
-- The two runs of each generate_* method, and of any request.
pub mod Clauses
pub mod Reads
pub mod Writes
pub mod Schema
pub mod All

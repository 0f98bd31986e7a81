-- ===== src/Agree.antt =====
-- The generator is run with two dialects side by side. Whatever relation the texts of the dialects
-- keep, the generated statements keep; the two runs bind the same parameters.
pub mod Relation
pub mod Writer
pub mod Texts
pub mod Regular
pub mod Visit
pub mod Requests
pub mod Follow
pub mod Each
pub mod Statements

-- ===== src/Tests.antt =====
-- Runs of the model on small inputs, and the theorems at concrete requests.
mod Values
mod Contexts
mod Builders
mod Statements
mod Drivers
mod Pools
mod Chunks

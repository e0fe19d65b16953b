-- ===== src/Examples.antt =====
-- The theorems applied to concrete inputs: one module for each part of the program.
pub mod Commerce
pub mod Payments
pub mod Orders
pub mod Handoff
pub mod Chain
pub mod Identifiers
pub mod Commands
pub mod Identity

-- ===== src/Tests.antt =====
-- Concrete parameters for the crates, a small database, and the theorems of the other modules applied
-- to them.
pub mod Toy
pub mod Machine
pub mod Serving
pub mod Setup
pub mod Tools
pub mod Values
pub mod Store
pub mod Connection

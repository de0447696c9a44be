-- ===== src/Examples.antt =====
-- Concrete inputs for the models of the tools, and runs of the theorems on them.
pub mod Events
pub mod Runs
pub mod Tools
pub mod Programs
pub mod Captures
pub mod Reports
pub mod Closures
pub mod Simulations
pub mod Crossings
pub mod Terminals
pub mod Selftests
pub mod Traps
pub mod Accesses
pub mod Images

-- ===== src/Lockstep.antt =====
-- scripts/lockstep.py: the comparison of a simulated core (the DUT) with Spike, event by event.
pub mod Error
pub mod Exec
pub mod Insn
pub mod Patterns
pub mod Reference
pub mod Event
pub mod Compare
pub mod Spike
pub mod Terminal
pub mod State
pub mod Injection
pub mod Memory
pub mod Run

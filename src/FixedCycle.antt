-- ===== src/FixedCycle.antt =====
-- edge_runtime/resident_fixed_cycle.py: the plan of the fixed targets, the state machine of one
-- mission of several cycles, and the coordinator that hands its directives to a driver.
pub mod Values
pub mod Dict
pub mod Ensures
pub mod Plan
pub mod Machine
pub mod Coordinator
pub mod Templates
mod Samples
mod Examples

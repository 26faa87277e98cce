-- ===== src/Jvm/Refine.antt =====
-- `execute` implements the operational semantics.
mod Dispatch
mod Round
mod Operands
mod Jumps
mod Arrays
mod Call
pub mod Runs
pub mod Step

-- ===== src/Jvm.antt =====
-- java-virtual-machine: the machine that runs the methods of a Java class file.
pub mod Opcode
pub mod Outcome
pub mod Int32
pub mod Machine
pub mod Instr
pub mod Class
pub mod Reader
pub mod ReadClass
pub mod Execute
pub mod Frame
pub mod Semantics
pub mod Runs
pub mod Refine
pub mod Main
pub mod Lookup
pub mod Arith
mod Tests

-- ===== src/Checker.antt =====
-- src/ldebug.c: symbolic execution of a function's code, the checker of precompiled code.
pub mod Checks
pub mod Switch
pub mod Run
pub mod Starts
pub mod Spec
pub mod Operands
pub mod Uses
pub mod Safety
pub mod Skips
pub mod Reach

-- ===== src/Tests.antt =====
-- Concrete runs, and the theorems at concrete inputs.
mod Samples
mod Instructions
mod Chunks
mod Checks
mod Streams
mod Tables
mod Growth
mod Patterns
mod Searches
mod Closures
mod Jumping
mod Names
mod FloatBytes
mod Lexing
mod Sorts
mod Refs
mod Comparisons

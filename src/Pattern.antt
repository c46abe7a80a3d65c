-- ===== src/Pattern.antt =====
-- src/lstrlib.c: pattern matching. A subject is its bytes, and a pointer into it a position. A pointer
-- into the pattern is what is left of the pattern from there; behind the end stands a '\0', which
-- also a byte 0 of the pattern is taken for.
pub mod Classes
pub mod Captures
pub mod Match
pub mod Meaning
pub mod Expand
pub mod Suffix
pub mod Lengths
pub mod Undo
pub mod Decide
pub mod Bounds

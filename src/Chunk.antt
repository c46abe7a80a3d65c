-- ===== src/Chunk.antt =====
-- src/ldump.c and src/lundump.c: precompiled chunks.
pub mod Header
pub mod Dump
pub mod Load
pub mod Format
pub mod Rules
pub mod RoundTrip
pub mod Whole
pub mod Reject

-- ===== src/Strings.antt =====
-- src/lstrlib.c: the functions of the string library that search, cut and replace.
pub mod Positions
pub mod Plain
pub mod Format
pub mod Results
pub mod Search
pub mod First
pub mod Substitute
pub mod Pieces
pub mod Rewrite

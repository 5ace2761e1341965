-- ===== src/Std.antt =====
-- What the program uses of Rust's standard library.
pub mod HashMap
pub mod HashSet
pub mod Sort
pub mod Bits

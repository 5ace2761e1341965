-- ===== src/Tests.antt =====
-- Tests: the theorems at concrete inputs, and runs whose results are written out.
pub mod Data
mod Primitives
mod Stored
pub mod Suite
mod Served
mod Shell
mod Sessions
mod Copies
mod Requests
mod Seeded
mod Raced
mod Pages
mod Reloaded
mod Dumped
pub mod Values

-- ===== src/Store/Timeline.antt =====
-- `home_timeline` of crates/store/src/lib.rs.
pub mod Newest
pub mod Gather
pub mod Contents

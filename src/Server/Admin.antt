-- ===== src/Server/Admin.antt =====
-- crates/server/src/admin.rs: the endpoints that dump and load the whole state.
pub mod Wire
pub mod Token
pub mod Load

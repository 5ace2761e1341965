-- ===== src/Server.antt =====
-- crates/server: the HTTP shell around the service.
pub mod Json
pub mod Response
pub mod Metrics
pub mod Admin
pub mod Handlers
pub mod Probes
pub mod Ui
pub mod Seed
pub mod App

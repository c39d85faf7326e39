-- ===== src/Bundle.antt =====
-- The durable bundle store (bundle_store.go), the bundle lifecycle (bundle_manager.go) and the
-- error codes of the control API (control_api.go).
pub mod Types
pub mod Id
pub mod Platform
pub mod Store
pub mod Manager
pub mod Commit
pub mod Withdraw

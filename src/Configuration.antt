-- ===== src/Configuration.antt =====
-- The configuration document (config.go): its types, and the store that serves the current snapshot.
pub mod Types
pub mod Store
pub mod Validate

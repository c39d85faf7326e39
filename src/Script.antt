-- ===== src/Script.antt =====
-- Scripts of extensions: the bound on their nesting.
pub mod Nesting

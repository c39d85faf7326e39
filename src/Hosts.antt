-- ===== src/Hosts.antt =====
-- Host patterns, the compiled matcher, and which target a request is sent to (config.go,
-- module_runtime.go, transport_projection.go, module_request_rewrite.go).
pub mod Patterns
pub mod Matcher
pub mod Runtime
pub mod Targets
pub mod Projection

-- ===== src/Logs.antt =====
-- The engine log: its hub (engine_logs.go), and the WebSocket frames that carry it.
pub mod Hub
pub mod Frame
pub mod Event

-- ===== src/Modules.antt =====
-- What the program does around the scripts of extensions: the budget of body bytes
-- (module_proxy.go), the reading of bodies (content_encoding.go), the timers of a script
-- (module_async.go), the choice of the actions that run on a message (module_runtime.go), and the
-- actions that need no script (module_mock.go, module_rewrite.go).
pub mod Budget
pub mod Bodies
pub mod Timers
pub mod Template
pub mod Declarative
pub mod Rules

-- ===== src/Lib.antt =====
-- The verification library of the mihomo extension sidecar: the parts of the program whose state
-- outlives a request, as definitions translated from the Go sources, with theorems about them.
--
-- Bundle is the durable bundle store and the transactional manager on top of it. Bundle/Types has
-- the records, states and errors (bundle_store.go), Bundle/Id validateBundleID, Bundle/Store the
-- store's operations (Put, Get, Delete, List, Pointer, SetPointer, Purge, writeJSON),
-- Bundle/Manager the manager's state with Recover and Stage, Bundle/Commit Commit and
-- pruneSuperseded, and Bundle/Withdraw Abort and Purge (bundle_manager.go) with the error table of
-- writeError (control_api.go). Bundle/Platform is the interface to what is not in the repository:
-- the file system, the clock, SHA-256 and JSON, and decodeConfig, with the documented behaviour of
-- these calls as laws. The manager's mutex makes every operation one step from a manager and a
-- world to an answer, a manager and a world; what fails says so in the answer, at each call that
-- can fail.
-- Socks is the SOCKS5 codec of socks.go. Socks/Conn is a connection (bytes to come, bytes sent,
-- writes left), Socks/Address the address codec, Socks/Auth the handshakes of both sides,
-- Socks/Datagram the UDP envelope and its buffers, Socks/Packets what the packet connections
-- deliver, the comparison of targets, and the authorization of an association
-- (transport_projection.go). Texts of IP addresses are parsed and printed by a parameter.
-- Logs is about engine_logs.go. Logs/Hub is the ring buffer with its readers, where a step is one
-- critical section of the mutex; Logs/Event the checks and the truncation of an event; Logs/Frame
-- the WebSocket frame codec of the log stream.
-- Script/Nesting is checkScriptNesting (script_nesting.go), the scan that bounds the nesting of a
-- script before it is parsed.
-- Configuration is config.go. Configuration/Types has the structs of the document,
-- Configuration/Validate the validators that decide whether a document is accepted, with the tests of
-- mocks and rewrites (module_mock.go, module_rewrite.go), and Configuration/Store the store that
-- serves the current snapshot: each call of Current is a step on what it finds outside.
-- Hosts is what host patterns decide (config.go, module_runtime.go): Hosts/Patterns and Hosts/Matcher
-- match them, Hosts/Runtime says which hosts are intercepted and owned, Hosts/Targets where a request
-- goes (module_request_rewrite.go), and Hosts/Projection is what a pool of transports keeps of a
-- document, with its fingerprint (transport_projection.go).
-- Transports is that pool (proxy.go): generations with reference counts, where an acquire, a release
-- and a close are steps on a store of generations, and a close that the source runs after the lock is
-- a step of its own.
-- Modules is what surrounds the scripts of an extension: Modules/Budget the budget of body bytes and
-- the reservations (module_proxy.go), with the slots that the handler of proxy.go holds, Modules/Bodies
-- the bounded reading of bodies (proxy.go, content_encoding.go), Modules/Timers the timers of a script (module_async.go),
-- Modules/Rules the choice of the actions that run on a message (module_runtime.go),
-- Modules/Template the expansion of settings in a template and Modules/Declarative the actions that
-- need no script (module_rewrite.go, module_mock.go).
-- Common has what these share, and Tests runs the definitions on a concrete disk, connection and
-- hub, with the theorems at those inputs.
--
-- Numbers are natural numbers, but for the signed ints of a document, which are ℤ, and a float64 is
-- the number of its 64 bits. The counters of the hub and the generations wrap at 2 ^ 64; buffer
-- sizes and lengths are far below the range of an int and are not wrapped, the number of
-- subscribers too. The scan of a script runs on fuel, the length of the source, and each round
-- takes at least a byte; the expansion of a template runs on one more
-- than its length; every other loop runs over a list, or down from the length of one.
--
-- Not modelled: openBundleStore and the read-only views of the manager, the server's sending side
-- and the dialling of socks.go, the HTTP and WebSocket services, the decoding of JSON, the scripts'
-- runtime, and the handling of requests and responses in the interception proxy. Errors carry no
-- text, a validator answers whether it accepts, and a notice its facts only. What the libraries
-- answer (net, net/url, regexp, encoding/json, strings, crypto/sha256, goja, gojq) is a parameter.
mod Common
pub mod Bundle
pub mod Socks
pub mod Logs
pub mod Script
pub mod Configuration
pub mod Hosts
pub mod Transports
pub mod Modules
mod Tests

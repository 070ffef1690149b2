-- ===== src/Core/Network.antt =====
-- core/network.go: the connection to the control port of tor.
-- The fields that the control mutex guards are a state; a piece of code that holds the mutex is one step,
-- with what it does next on its own connection. The events published and the calls of the control connection are the trace.
pub mod Socks
pub mod Query
pub mod Control
pub mod Services
pub mod Run
pub mod Keeping
pub mod Connected
pub mod Tests

-- ===== src/Tests.antt =====
-- The theorems at concrete inputs, at which their hypotheses hold.
mod Fixtures
mod Buffers
mod Events
mod Sockets
mod Connections
mod Asynchronous
mod Streams
mod Messages
mod Texts

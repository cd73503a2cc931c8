-- ===== src/Server.antt =====
-- core/server: the decoder of framed streams, and the handler of a connection.
pub mod Connection
pub mod Framer
mod Tests

-- ===== src/Stream.antt =====
-- interceptor/stream: the parser of server-sent events, the accumulators and the tap.
pub mod Sse
pub mod Accumulators
pub mod Tap
mod Tests

-- ===== src/Egress.antt =====
-- interceptor/egress: the bounded buffer of frames, the frame format and the socket client.
pub mod RingBuffer
pub mod Framing
pub mod Client
mod Tests

-- ===== src/Presentation.antt =====
-- presentation: the bus from the core to the user interfaces.
pub mod Broadcaster
mod Tests

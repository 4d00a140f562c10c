-- ===== src/Pcble.antt =====
-- The emulated Nintendo controller: pcble_backend/poc/protocol.c and the part of
-- server/output_pcble.c that translates a controller state for it.
pub mod Protocol
pub mod Spi
pub mod Reply
pub mod Output
pub mod Sticks
pub mod Buttons
pub mod Console
pub mod Session
mod Tests

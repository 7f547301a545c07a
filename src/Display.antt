-- ===== src/Display.antt =====
-- display/: characters on the frame buffer.
mod Tests
pub mod Picture
pub mod Glyph
pub mod Screen
pub mod Console

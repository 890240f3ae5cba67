-- ===== src/Tty.antt =====
-- kernel/src/tty.c and kernel/include/kernel/ansi.h: the terminal on the frame buffer.
pub mod Colors
pub mod Screen
pub mod Escape
pub mod Write
pub mod Cursor
pub mod Backward
pub mod Drawing
pub mod Commands
pub mod Inside
pub mod Blending
pub mod Rendition
pub mod Sequences
mod Tests

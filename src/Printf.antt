-- ===== src/Printf.antt =====
-- libc/stdio/printf.c, in its build for the kernel, where putchar and puts are those of the terminal.
pub mod Spec
pub mod Number
pub mod Format
pub mod Digits
pub mod Layout
pub mod Count
pub mod Loop
pub mod Decimal
mod Tests

-- ===== src/Libc.antt =====
-- The C library that the kernel links: libc/string, libc/stdlib and libc/stdio.
pub mod Memory
pub mod Strings
pub mod Itoa
pub mod Stdio

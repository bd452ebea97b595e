-- ===== src/Libc.antt =====
-- The C library's memory, string and printing functions: libc/string, libc/stdlib/find.c and libc/stdio.
pub mod Mem
pub mod Text
pub mod Stdio

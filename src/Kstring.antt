-- ===== src/Kstring.antt =====
-- kernel/string.c, the freestanding memory and string functions of the kernel.
pub mod Memcpy
pub mod Tests

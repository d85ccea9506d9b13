-- ===== src/CLib.antt =====
-- lib.c: the kernel's memory and string routines, over the flat byte memory.
pub mod Blocks
pub mod Strings
pub mod Printf
pub mod Console

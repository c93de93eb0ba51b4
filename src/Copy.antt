-- ===== src/Copy.antt =====
-- The programs that copy or measure one file: fileio/mycpy.c, fileio/trunc_ln_10.c, stdio/mycpy.c,
-- stdio/mycpy1.c, stdio/char_count.c, and the readers by line of stdio/.
pub mod Chars
pub mod Blocks
pub mod Lines
pub mod Texts
mod Tests

-- ===== src/Os.antt =====
-- What the program takes from the operating system and the standard library: byte strings, paths,
-- and the answers of the file system.
pub mod Text
pub mod FilePath
pub mod Decimal
pub mod Fs

-- ===== src/Copy.antt =====
-- sample/copy.cc: the program that copies a file with the asynchronous transfers.
pub mod Defs
pub mod Whole
mod Tests

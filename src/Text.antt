-- ===== src/Text.antt =====
-- Functions on strings of src/tools/util.cpp: percent encodings, trimming and splitting. A character
-- is a byte; a `char` below zero is a byte of 128 or more.
pub mod Encode
pub mod Trim
pub mod Split
pub mod Decode
mod Tests

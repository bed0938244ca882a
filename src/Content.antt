-- ===== src/Content.antt =====
-- The records that the crawler keeps of the pages of a document, src/module/LocalDbManager.cpp.
pub mod Format
pub mod Head
pub mod PageText
pub mod Zlib
pub mod Tests
pub mod Records

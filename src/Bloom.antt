-- ===== src/Bloom.antt =====
-- The filters of src/module/bloomfilter.
pub mod Types
pub mod Platform
pub mod Size
pub mod Bitmap
pub mod Filter
pub mod Chain
pub mod Process
pub mod Buckets
pub mod Create
pub mod Store
pub mod History
pub mod Archive
pub mod Example
mod Tests

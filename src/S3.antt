-- ===== src/S3.antt =====
-- s3/: keys and buckets, single requests, the multipart upload and PutStream.
pub mod Wire
pub mod Key
pub mod Client
pub mod Config
pub mod Url
pub mod Sign
pub mod Listing
pub mod Multipart
pub mod Stream
pub mod Tests

-- ===== src/Util.antt =====
-- src/util.c: buffers, strings, hashing, Base64, UTF-8 and the token estimate.
pub mod Strings
pub mod Utf8
pub mod Base64
pub mod Buffer
pub mod Hash

-- ===== src/Platform.antt =====
-- The JavaScript runtime, as far as the code calls it: dates, base64, text encoding, URIs and
-- headers, each by the rules of the standard that defines it.
pub mod Date
pub mod Base64
pub mod Utf8
pub mod Headers
pub mod Uri
pub mod Crypto

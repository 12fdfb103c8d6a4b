-- ===== src/Codec.antt =====
-- crates/codecs/src: the binary wire format.
pub mod Buffer
pub mod Binary
pub mod Decode
pub mod RoundTrip

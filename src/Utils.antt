-- ===== src/Utils.antt =====
-- common/utils: big-endian byte access and the check codes.
pub mod Bytes
pub mod Check
pub mod RoundTrip

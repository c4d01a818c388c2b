-- ===== src/Util.antt =====
-- util.c: checksums, serial numbers, texts and the poll of a descriptor.
pub mod Checksum
pub mod Serial
pub mod Text
pub mod Poll

-- ===== src/Reader.antt =====
-- src/libelfr/erf_reader.c: reading resources out of a container in memory.
pub mod Outcome
pub mod Messages
pub mod Container
pub mod Open
pub mod Find
pub mod Metadata
pub mod Checksum
pub mod Default
pub mod Sample
mod Tests

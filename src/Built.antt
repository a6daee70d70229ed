-- ===== src/Built.antt =====
-- A container that container_build.c writes, in the hands of erf_reader.c.
pub mod Accepted
pub mod Opened
pub mod Buckets
pub mod Found
pub mod Verified
pub mod RoundTrip
pub mod Sample
mod Tests
pub mod Metadata
pub mod Call
pub mod Object
pub mod ElfH
pub mod Symbols
pub mod Compiled
mod ObjectTests

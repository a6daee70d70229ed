-- ===== src/Container/Written.antt =====
-- What `elfrc_container_build` puts into the container, and where it stands.
pub mod Strings
pub mod Data
pub mod Blocks
pub mod Metadata
pub mod Finish
pub mod Laid
pub mod Entries
pub mod Finished
pub mod Total

-- ===== src/Container.antt =====
-- src/elfrc/container_build.c: building an ERF container from a manifest. The buffer is the plain
-- byte sequence that byte_buf.c implements (ByteBuf/Refine.antt).
pub mod HashTable
pub mod Sections
pub mod Build
pub mod Written

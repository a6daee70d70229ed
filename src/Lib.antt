-- ===== src/Lib.antt =====
-- elfrc: resources embedded in ELF objects.
--
-- The program has two halves that share a format. The compiler `elfrc` (src/elfrc) parses a manifest,
-- assigns ids, builds a resource container in memory and writes it into an ELF object. The library
-- libelfr (src/libelfr) opens a container in memory, without copying it, and looks resources up by
-- name, id and index. Both use src/common for a growing buffer, a checksum and a hash.
--
-- Which file models what:
--   ByteBuf             src/common/byte_buf.c: a buffer is its bytes, their number and the capacity,
--                       and `none` is the loop of `byte_buf_reserve` that never ends
--   ByteBuf/Refine      the calls as calls on a plain sequence of bytes
--   Crc64               src/common/crc64.c, and in Crc64/Bitwise the register as the specification
--   Fnv1a               src/common/fnv1a.c
--   Format              include/elfr/erf_format.h: structs, and their bytes
--   Manifest            src/elfrc/manifest.h
--   Manifest/Yaml       the helpers of src/elfrc/manifest_yaml.c for libyaml's nodes, Manifest/Uint its
--                       `parse_uint`, Manifest/Names its tables of names
--   Manifest/Parse      `set_error`, `parse_metadata` and `parse_flags`; Manifest/Parse/Entry is
--                       `parse_resource`, Manifest/Parse/Whole `elfrc_manifest_parse`, and Manifest/Ids
--                       `assign_and_validate_ids`
--   Container/HashTable `next_pow2` and the hash table of src/elfrc/container_build.c
--   Container/Sections  its string table, metadata, and resource data
--   Container/Build     `elfrc_container_build` itself
--   Container/Written   where in a container that was built the sections stand
--   Built               the halves together: a built container in the hands of libelfr, the object that
--                       elfrc writes in the hands of elfresdump (Built/Object), and all of elfrc
--                       (Built/Compiled)
--   Elf, Elf/Object     src/elfrc/elf_writer.c, with elf.h as the parameter `ElfH`
--   Command/Elfrc       src/elfrc/main.c: the arguments, and the passes in their order
--   Command/Elfresdump  src/elfresdump/main.c: the `.resource` section of a file; in
--                       Command/Elfresdump/Run the list and the extraction
--   Reader/Open         `erf_open_memory` of src/libelfr/erf_reader.c
--   Reader/Find         `erf_find_in`, `erf_find_id_in`, `erf_resource_at`, `erf_resource_data_in`
--   Reader/Metadata     `erf_metadata_count`, `erf_metadata_get`
--   Reader/Checksum     `erf_verify_checksum`
--   Reader/Messages     `erf_strerror`
--   Reader/Default      src/libelfr/erf_lookup.c, with the globals as a state that is passed on
--   Base, Bits, Bytes   shared helpers: lists, tests, exclusive or, words in memory
--
-- Numbers are natural numbers with the wrap-around of the C type written out. Memory is a sequence of
-- bytes, a pointer into it an offset, and a read outside of it the outcome `fault`. A C string is the
-- bytes before its zero. The container builder uses the buffer by the plain sequence of
-- ByteBuf/Refine. Files, elf.h, the documents that libyaml builds, `dirname`, and `qsort` and `bsearch`
-- of the C library, are parameters. `set_error` keeps what goes into a message in place of its text,
-- a NULL as `none`, where the C code hands it to vsnprintf; lines are taken to fit an int.
--
-- Fuel: `next_pow2` takes 28 rounds, which reach every power of two of 32 bits from 16 on;
-- `byte_buf_reserve` 64, one for each bit of size_t; a probe in the hash table as many rounds as there
-- are buckets, after which it would repeat; the search for a free id one more than there are ids taken.
-- Allocation is taken to succeed, since the code does not test it.
--
-- Not modelled: `free`, the texts that the programs print, the example program, and what follows
-- where a resource's name is no scalar, which leaves a NULL name: the parser's result is then
-- `nameless`. elfresdump is taken to stop where a struct or a string is not wholly inside of the file.
pub mod Base
pub mod Bits
pub mod ByteBuf
pub mod Built
pub mod Bytes
pub mod Command
pub mod Container
pub mod Crc64
pub mod Elf
pub mod Fnv1a
pub mod Format
pub mod Manifest
pub mod Reader

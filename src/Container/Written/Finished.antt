-- ===== src/Container/Written/Finished.antt =====
-- The finished container: header, directory, and all that was laid out behind them.
use elfrc.Base.{
  ℕ, ◌+◌, ◌*◌, ◌^◌, ◌≤◌, ◌<◌, ◌≡◌, refl, sym, ap, subst, ◌∙◌, arith, List, [], length, take,
  append-nil, Bool, true, false, bit_or, if◌then◌else◌,
}
use elfrc.Bytes.{le_bytes}
use elfrc.Bytes.Sits.{Sits, Sits-room, slice-Sits}
use elfrc.Crc64.{elfr_crc64}
use elfrc.Crc64.Range.{elfr_crc64_word}
use elfrc.Format.{Header, header_bytes, header_of, HashBucket, sizeof_header, sizeof_entry}
use elfrc.Format.RoundTrip.{IsHeader, header_of-header_bytes}
use elfrc.Manifest.{Resource}
use elfrc.Container.Sections.{Files, any_metadata}
use elfrc.Container.Build.{
  overwrite, Layout, entries_for, entries_bytes, header_flags, header_for, localized, finish,
}
use elfrc.Container.Written.Strings.{Stands}
use elfrc.Container.Written.Finish.{length-overwrite, overwrite-Sits, overwrite-kept, overwrite-le}
use elfrc.Container.Written.Laid.{directory_end, IsLaidOut}
use elfrc.Container.Written.Entries.{length-entries_bytes}

abbrev pub directory_bytes : List Resource → Layout → List ℕ
directory_bytes rs l = entries_bytes (entries_for rs l.name_offsets l.metadata_offsets l.slots)

-- The buffer with the directory, and with the header that has no checksum yet.
abbrev with_directory : List Resource → Layout → List ℕ
with_directory rs l = overwrite l.buf l.directory_offset (directory_bytes rs l)

abbrev pub unsigned : List Resource → Layout → List ℕ
unsigned rs l = overwrite (with_directory rs l) 0 (header_bytes (header_for rs l))

-- The header that the container gets in the end.
abbrev pub signed_header : List Resource → Layout → Header
signed_header rs l = record (header_for rs l) { checksum = elfr_crc64 (unsigned rs l) }

length-header_for :
    (rs : List Resource) (l : Layout) → length (header_bytes (header_for rs l)) ≡ sizeof_header
unfolding header_for header_bytes le_bytes
length-header_for rs l = refl

length-signed_header :
    (rs : List Resource) (l : Layout) → length (header_bytes (signed_header rs l)) ≡ sizeof_header
unfolding header_for header_bytes le_bytes
length-signed_header rs l = refl

header_flags-lt : (rs : List Resource) → header_flags rs < 2 ^ 32
unfolding header_flags
header_flags-lt rs = by_cases (any_metadata rs) (localized rs)
  where
    by_cases :
        (m k : Bool) → (let g = if m then bit_or 4 2 else 4 in if k then bit_or g 1 else g) < 2 ^ 32
    by_cases true true = omega arith
    by_cases true false = omega arith
    by_cases false true = omega arith
    by_cases false false = omega arith

-- The container is as long as what was laid out, at least.
pub finish-le : (rs : List Resource) (l : Layout) → length l.buf ≤ length (finish rs l)
unfolding finish
finish-le rs l = omega (
  arith,
  overwrite-le l.buf l.directory_offset (directory_bytes rs l),
  overwrite-le (with_directory rs l) 0 (header_bytes (header_for rs l)),
  overwrite-le (unsigned rs l) 0 (header_bytes (signed_header rs l)),
)

-- The parts of the finished container.
pub record IsFinished (rs : List Resource) (l : Layout) (mem : List ℕ) : Type 0 where
  pub whole : length mem ≡ length l.buf
  pub header : Sits mem 0 (header_bytes (signed_header rs l))
  pub directory : Sits mem sizeof_header (directory_bytes rs l)
  pub kept : (o : ℕ) (bytes : List ℕ) → Stands (directory_end rs) l.buf o bytes → Sits mem o bytes

module _ (files : Files) (t : List HashBucket) (rs : List Resource) (l : Layout)
    (laid : IsLaidOut files t rs l) (small : length l.buf < 2 ^ 32) where
  length-directory_bytes : length (directory_bytes rs l) ≡ length rs * sizeof_entry
  length-directory_bytes =
      length-entries_bytes (directory_end rs) files l.buf rs l.name_offsets l.metadata_offsets
        l.slots (laid.names small) laid.blocks laid.stored

  directory_room : l.directory_offset + length (directory_bytes rs l) ≤ length l.buf
  directory_room = omega (arith, laid.directory, laid.room, length-directory_bytes)

  length-with_directory : length (with_directory rs l) ≡ length l.buf
  length-with_directory =
      length-overwrite l.buf l.directory_offset (directory_bytes rs l) directory_room

  header_room : 0 + length (header_bytes (header_for rs l)) ≤ length (with_directory rs l)
  header_room = omega (arith, length-header_for rs l, length-with_directory, laid.room)

  length-unsigned : length (unsigned rs l) ≡ length l.buf
  length-unsigned =
      length-overwrite (with_directory rs l) 0 (header_bytes (header_for rs l)) header_room
      ∙ length-with_directory

  signed_room : 0 + length (header_bytes (signed_header rs l)) ≤ length (unsigned rs l)
  signed_room = omega (arith, length-signed_header rs l, length-unsigned, laid.room)

  -- What stands behind the header stays while the header is written, twice.
  signed-kept :
      (o : ℕ) (bytes : List ℕ)
      → sizeof_header ≤ o
      → Sits (with_directory rs l) o bytes
      → Sits (overwrite (unsigned rs l) 0 (header_bytes (signed_header rs l))) o bytes
  signed-kept o bytes behind s =
      overwrite-kept (unsigned rs l) 0 (header_bytes (signed_header rs l)) signed_room
        (omega (arith, length-signed_header rs l))
        (overwrite-kept (with_directory rs l) 0 (header_bytes (header_for rs l)) header_room
          (omega (arith, length-header_for rs l)) s)

  pub finish-IsFinished : IsFinished rs l (finish rs l)
  unfolding finish
  finish-IsFinished = record {
    whole =
        length-overwrite (unsigned rs l) 0 (header_bytes (signed_header rs l)) signed_room
        ∙ length-unsigned;
    header = overwrite-Sits (unsigned rs l) 0 (header_bytes (signed_header rs l)) signed_room;
    directory = signed-kept sizeof_header (directory_bytes rs l) (omega arith) (
        subst (λ k. Sits (with_directory rs l) k (directory_bytes rs l)) laid.directory
          (overwrite-Sits l.buf l.directory_offset (directory_bytes rs l) directory_room));
    kept = λ o bytes s. signed-kept o bytes (omega (arith, s.behind)) (
        overwrite-kept l.buf l.directory_offset (directory_bytes rs l) directory_room
          (omega (arith, laid.directory, length-directory_bytes, s.behind)) s.sits);
  }

  signed_header-IsHeader : IsHeader (signed_header rs l)
  unfolding header_for
  signed_header-IsHeader = record {
    magic = refl;
    version_major = omega arith;
    version_minor = omega arith;
    header_size = omega arith;
    flags = header_flags-lt rs;
    resource_count = omega arith;
    directory_entry_size = omega arith;
    reserved0 = omega arith;
    directory_offset = omega (arith, laid.directory);
    string_offset = omega (arith, laid.strings);
    metadata_offset = omega (arith, laid.metadata);
    hash_table_offset = omega (arith, Sits-room laid.table.sits);
    signature_offset = omega arith;
    data_offset = omega (arith, laid.data_start);
    total_size = omega arith;
    checksum = elfr_crc64_word (unsigned rs l);
    reserved_length = refl;
    reserved = (
      omega arith,
      (
        omega arith,
        (
          omega arith,
          (omega arith, (omega arith, (omega arith, (omega arith, (omega arith, tt))))),
        ),
      ),
    );
  }

  -- The reader decodes the header that was written.
  pub decoded_header :
      (mem : List ℕ) → IsFinished rs l mem → header_of (take sizeof_header mem) ≡ signed_header rs l
  decoded_header mem f =
      let h = signed_header rs l in
      ap header_of (
        slice-Sits (header_bytes h) (sym (length-signed_header rs l)) f.header
        ∙ sym (append-nil (header_bytes h)))
      ∙ header_of-header_bytes h [] signed_header-IsHeader

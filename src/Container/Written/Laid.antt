-- ===== src/Container/Written/Laid.antt =====
-- The sections of a container that was laid out.
use elfrc.Base.{
  ℕ, ◌+◌, ◌*◌, ◌%◌, ◌^◌, ◌≤◌, ◌<◌, ◌≡◌, refl, ap, subst, ◌∙◌, arith, List, [], Bool, length,
  length-append, length-replicate, replicate, if◌then◌else◌, true, false,
}
use elfrc.ByteBuf.Refine.{buf_append_zeros, buf_align}
use elfrc.Format.{HashBucket, sizeof_header, sizeof_entry}
use elfrc.Manifest.{Resource}
use elfrc.Container.Sections.{
  Files, Loaded, loaded, failed, DataSlot, intern_names, write_metadata, any_metadata,
  write_hash_table, write_data,
}
use elfrc.Container.Build.{Layout, lay_out}
use elfrc.Container.Written.Strings.{
  Grows, Grows-trans, Grows-le, Stands, Stands-Grows, AreNamed, AreNamed-Grows, intern_names-Grows,
  intern_names-AreNamed,
}
use elfrc.Container.Written.Data.{AreStored, buf_align-Grows, write_data-AreStored}
use elfrc.Container.Written.Metadata.{AreBlocks, write_metadata-AreBlocks}
use elfrc.Container.Written.Blocks.{
  AreInside, write_metadata-Grows, write_metadata-AreInside, table_bytes, write_hash_table-Sits,
  write_hash_table-Grows,
}

-- Where the directory ends.
abbrev pub directory_end : List Resource → ℕ
directory_end rs = sizeof_header + length rs * sizeof_entry

-- Everything but the header and the directory stands behind these.
pub record IsLaidOut (files : Files) (t : List HashBucket) (rs : List Resource) (l : Layout)
    : Type 0 where
  pub directory : l.directory_offset ≡ sizeof_header
  pub room : directory_end rs ≤ length l.buf
  pub strings : l.string_offset ≤ length l.buf
  pub names : length l.buf < 2 ^ 32 → AreNamed (directory_end rs) l.buf rs l.name_offsets
  pub blocks : AreInside (length l.buf) rs l.metadata_offsets
  pub pairs : AreBlocks (directory_end rs) l.buf rs l.metadata_offsets
  pub metadata : l.metadata_offset ≤ length l.buf
  pub table : Stands (directory_end rs) l.buf l.hash_table_offset (table_bytes t)
  pub data_start : l.data_offset ≤ length l.buf
  pub stored : AreStored (directory_end rs) files l.buf rs l.slots

-- The buffer with room for the header and the directory.
abbrev start_buf : List Resource → List ℕ
start_buf rs = buf_append_zeros (buf_append_zeros [] sizeof_header) (length rs * sizeof_entry)

length-start_buf : (rs : List Resource) → length (start_buf rs) ≡ directory_end rs
length-start_buf rs =
    length-append (buf_append_zeros [] sizeof_header) (replicate (length rs * sizeof_entry) 0)
    ∙ ap (λ (k : ℕ). sizeof_header + k) (length-replicate {A = ℕ} (length rs * sizeof_entry) 0)

metadata_start : (b : Bool) (n total : ℕ) → n ≤ total → (if b then n else 0) ≤ total
metadata_start true n total le = le
metadata_start false n total le = omega arith

module _ (files : Files) (t : List HashBucket) (rs : List Resource) where
  abbrev strings_at : List ℕ
  strings_at = buf_align (start_buf rs) 8

  abbrev strings_end : List ℕ
  strings_end = (intern_names [] strings_at (length strings_at % 2 ^ 32) rs).1

  abbrev metadata_at : List ℕ
  metadata_at = buf_align strings_end 8

  abbrev hash_at : List ℕ
  hash_at = buf_align (write_metadata metadata_at rs).1 8

  abbrev data_at : List ℕ
  data_at = buf_align (write_hash_table hash_at t) 16

  strings_at-Grows : Grows (start_buf rs) strings_at
  strings_at-Grows = buf_align-Grows (start_buf rs) 8

  strings_end-Grows : Grows strings_at strings_end
  strings_end-Grows = intern_names-Grows 0 [] strings_at (length strings_at % 2 ^ 32) rs

  metadata_at-Grows : Grows strings_end metadata_at
  metadata_at-Grows = buf_align-Grows strings_end 8

  hash_at-Grows : Grows metadata_at hash_at
  hash_at-Grows =
      Grows-trans (write_metadata-Grows metadata_at rs)
        (buf_align-Grows (write_metadata metadata_at rs).1 8)

  data_at-Grows : Grows hash_at data_at
  data_at-Grows =
      Grows-trans (write_hash_table-Grows hash_at t)
        (buf_align-Grows (write_hash_table hash_at t) 16)

  abbrev laid : List DataSlot × List ℕ → Layout
  laid (slots, buf) = record {
    directory_offset = length (buf_append_zeros [] sizeof_header);
    string_offset = length strings_at;
    name_offsets = (intern_names [] strings_at (length strings_at % 2 ^ 32) rs).0;
    metadata_offset = if any_metadata rs then length metadata_at else 0;
    metadata_offsets = (write_metadata metadata_at rs).0;
    hash_table_offset = length hash_at;
    data_offset = length data_at;
    slots = slots;
    buf = buf;
  }

  laid-IsLaidOut :
      (slots : List DataSlot) (buf : List ℕ)
      → write_data files data_at rs ≡ loaded (slots, buf)
      → IsLaidOut files t rs (laid (slots, buf))
  laid-IsLaidOut slots buf e =
      let low = directory_end rs in
      let start : length (start_buf rs) ≡ low = length-start_buf rs in
      let high = Grows-le strings_at-Grows in
      let to_data =
        Grows-trans strings_end-Grows
          (Grows-trans metadata_at-Grows (Grows-trans hash_at-Grows data_at-Grows)) in
      let behind : low ≤ length data_at = omega (arith, start, high, Grows-le to_data) in
      let (grows, stored) = write_data-AreStored low files data_at rs slots buf behind e in
      let from_hash = Grows-trans data_at-Grows grows in
      let from_metadata = Grows-trans hash_at-Grows from_hash in
      let from_strings = Grows-trans metadata_at-Grows from_metadata in
      let in_hash = write_hash_table-Grows hash_at t in
      let to_hash = Grows-trans strings_end-Grows (Grows-trans metadata_at-Grows hash_at-Grows) in
      record {
        directory = refl;
        room = omega (arith, behind, Grows-le grows);
        strings = omega (arith, Grows-le (Grows-trans strings_end-Grows from_strings));
        names = λ small. AreNamed-Grows low strings_end buf rs _ from_strings (
            intern_names-AreNamed low strings_at rs (omega (arith, start, high))
              (omega (arith, small, Grows-le from_strings)));
        blocks = write_metadata-AreInside metadata_at rs (length buf) (
            omega (
              arith,
              Grows-le (buf_align-Grows (write_metadata metadata_at rs).1 8),
              Grows-le from_hash,
            ));
        pairs =
            write_metadata-AreBlocks low metadata_at buf rs
              (omega
                (arith, start, high, Grows-le (Grows-trans strings_end-Grows metadata_at-Grows)))
              (Grows-trans (buf_align-Grows (write_metadata metadata_at rs).1 8) from_hash);
        metadata =
            metadata_start (any_metadata rs) (length metadata_at) (length buf)
              (Grows-le from_metadata);
        table =
            Stands-Grows (Grows-trans (buf_align-Grows (write_hash_table hash_at t) 16) grows)
              (record {
                behind = omega (arith, start, high, Grows-le to_hash);
                sits = write_hash_table-Sits hash_at t;
              });
        data_start = Grows-le grows;
        stored = stored;
      }

  layout_inversion :
      (m : Loaded (List DataSlot × List ℕ)) (l : Layout)
      → elim m [ failed e ↦ failed e | loaded p ↦ loaded (laid p) ] ≡ loaded l
      → (p : List DataSlot × List ℕ) × (m ≡ loaded p) × (laid p ≡ l)
  layout_inversion (failed e) l f = cc
  layout_inversion (loaded p) l f = (p, refl, cc)

  -- What `lay_out` returns.
  pub lay_out-IsLaidOut : (l : Layout) → lay_out files t rs ≡ loaded l → IsLaidOut files t rs l
  unfolding lay_out
  lay_out-IsLaidOut l e =
      let ((slots, buf), wrote, same) = layout_inversion (write_data files data_at rs) l e in
      subst (IsLaidOut files t rs) same (laid-IsLaidOut slots buf wrote)

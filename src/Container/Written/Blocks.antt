-- ===== src/Container/Written/Blocks.antt =====
-- The metadata blocks and the hash table in the container.
use elfrc.Base.{
  ℕ, ◌+◌, ◌%◌, ◌^◌, ◌≤◌, ◌≡◌, sym, ap, subst, ◌∙◌, arith, List, [], ◌∷◌, ◌++◌, length, take,
  append-nil, append_assoc,
}
use elfrc.Bytes.{le_bytes, with_nul}
use elfrc.Bytes.Sits.{Sits, Sits-behind}
use elfrc.ByteBuf.Refine.{buf_align}
use elfrc.Format.{HashBucket, hash_header_bytes}
use elfrc.Manifest.{MetadataKv, Resource}
use elfrc.Container.Sections.{
  write_string, write_pairs, write_block, write_metadata, buckets_bytes, write_hash_table,
}
use elfrc.Container.Written.Strings.{Grows, Grows-refl, Grows-append, Grows-trans, Grows-le}
use elfrc.Container.Written.Data.{buf_align-Grows}

write_string-Grows : (buf s : List ℕ) → Grows buf (write_string buf s)
unfolding write_string
write_string-Grows buf s =
    let len = length s % 2 ^ 32 in
    Grows-trans (Grows-append buf (le_bytes 4 len))
      (Grows-append (buf ++ le_bytes 4 len) (take ((len + 1) % 2 ^ 32) (with_nul s)))

write_pairs-Grows : (buf : List ℕ) (ms : List MetadataKv) → Grows buf (write_pairs buf ms)
unfolding write_pairs
write_pairs-Grows buf [] = Grows-refl buf
write_pairs-Grows buf (m ∷ ms) = Grows-trans (write_string-Grows buf m.key) (
    Grows-trans (write_string-Grows (write_string buf m.key) m.value)
      (write_pairs-Grows (write_string (write_string buf m.key) m.value) ms))

pub write_block-Grows : (buf : List ℕ) (ms : List MetadataKv) → Grows buf (write_block buf ms).1
unfolding write_block
write_block-Grows buf [] = Grows-refl buf
write_block-Grows buf (m ∷ ms) =
    let start = buf_align buf 8 in
    let count = le_bytes 4 (length (m ∷ ms) % 2 ^ 32) in
    Grows-trans (buf_align-Grows buf 8)
      (Grows-trans (Grows-append start count) (write_pairs-Grows (start ++ count) (m ∷ ms)))

-- A block starts inside of the buffer, or there is none.
write_block-le :
    (buf : List ℕ) (ms : List MetadataKv) → (write_block buf ms).0 ≤ length (write_block buf ms).1
unfolding write_block
write_block-le buf [] = omega arith
write_block-le buf (m ∷ ms) =
    let start = buf_align buf 8 in
    let count = le_bytes 4 (length (m ∷ ms) % 2 ^ 32) in
    Grows-le (Grows-trans (Grows-append start count) (write_pairs-Grows (start ++ count) (m ∷ ms)))

-- One offset for each resource, inside of the buffer.
abbrev pub AreInside : ℕ → List Resource → List ℕ → Type 0
AreInside total [] [] = Unit {0}
AreInside total [] (o ∷ os) = ⊥
AreInside total (r ∷ rs) [] = ⊥
AreInside total (r ∷ rs) (o ∷ os) = (o ≤ total) × AreInside total rs os

pub write_metadata-Grows : (buf : List ℕ) (rs : List Resource) → Grows buf (write_metadata buf rs).1
unfolding write_metadata
write_metadata-Grows buf [] = Grows-refl buf
write_metadata-Grows buf (r ∷ rs) =
    Grows-trans (write_block-Grows buf r.metadata)
      (write_metadata-Grows (write_block buf r.metadata).1 rs)

pub write_metadata-AreInside :
    (buf : List ℕ) (rs : List Resource) (total : ℕ)
    → length (write_metadata buf rs).1 ≤ total
    → AreInside total rs (write_metadata buf rs).0
unfolding write_metadata
write_metadata-AreInside buf [] total le = tt
write_metadata-AreInside buf (r ∷ rs) total le =
    let buf' = (write_block buf r.metadata).1 in
    (
      omega (arith, write_block-le buf r.metadata, Grows-le (write_metadata-Grows buf' rs), le),
      write_metadata-AreInside buf' rs total le,
    )

-- The table's header and its buckets.
abbrev pub table_bytes : List HashBucket → List ℕ
table_bytes t =
    hash_header_bytes (record { bucket_count = length t; reserved0 = 0 }) ++ buckets_bytes t

pub write_hash_table_lem :
    (buf : List ℕ) (t : List HashBucket) → write_hash_table buf t ≡ buf ++ table_bytes t
unfolding write_hash_table
write_hash_table_lem buf t = append_assoc buf _ (buckets_bytes t)

pub write_hash_table-Sits :
    (buf : List ℕ) (t : List HashBucket)
    → Sits (write_hash_table buf t) (length buf) (table_bytes t)
write_hash_table-Sits buf t =
    subst (λ m. Sits m (length buf) (table_bytes t))
      (ap (λ m. buf ++ m) (append-nil (table_bytes t)) ∙ sym (write_hash_table_lem buf t))
      (Sits-behind buf (table_bytes t) [])

pub write_hash_table-Grows :
    (buf : List ℕ) (t : List HashBucket) → Grows buf (write_hash_table buf t)
write_hash_table-Grows buf t = record { more = table_bytes t; whole = write_hash_table_lem buf t }

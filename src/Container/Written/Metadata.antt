-- ===== src/Container/Written/Metadata.antt =====
-- The metadata blocks: each stands at the offset that is kept for its resource, aligned to 8.
use elfrc.Base.{
  ℕ, ◌%◌, ◌^◌, ◌≤◌, ◌<◌, ◌≡◌, refl, sym, ap, subst, ◌∙◌, arith, List, [], ◌∷◌, ◌++◌, All, length,
  length-append, length-replicate, append-nil, append_assoc, replicate,
}
use elfrc.Bytes.{le_bytes}
use elfrc.ByteBuf.Refine.{buf_align, padding}
use elfrc.Manifest.{MetadataKv, Resource}
use elfrc.Container.Sections.{write_pairs, write_block, write_metadata}
use elfrc.Reader.Metadata.Block.{pairs_before, IsKv, write_pairs_lem}
use elfrc.Container.Written.Strings.{Grows, Grows-trans, Grows-le, Stands, Stands-Grows, Stands-end}
use elfrc.Container.Written.Data.{buf_align-Grows}
use elfrc.Container.Written.Blocks.{write_block-Grows, write_metadata-Grows}

-- The bytes of a block.
abbrev pub block_bytes : List MetadataKv → List ℕ
block_bytes ms = le_bytes 4 (length ms) ++ pairs_before ms []

pub record IsBlock (low : ℕ) (buf : List ℕ) (ms : List MetadataKv) (off : ℕ) : Type 0 where
  pub aligned : off % 8 ≡ 0
  pub stands : Stands low buf off (block_bytes ms)

-- Pairs that the format can hold have their block.
abbrev pub HasBlock : ℕ → List ℕ → List MetadataKv → ℕ → Type 0
HasBlock low buf ms off = 0 < length ms → length ms < 2 ^ 32 → All IsKv ms → IsBlock low buf ms off

pub buf_align-aligned : (buf : List ℕ) → length (buf_align buf 8) % 8 ≡ 0
buf_align-aligned buf =
    let pad = padding (length buf) 8 in
    ground (arith, length-append buf (replicate pad 0), length-replicate {A = ℕ} pad 0)

-- A block behind an aligned buffer.
pub write_block_lem :
    (buf : List ℕ) (m : MetadataKv) (ms : List MetadataKv)
    → length (m ∷ ms) < 2 ^ 32
    → All IsKv (m ∷ ms)
    → (write_block buf (m ∷ ms)).1 ≡ buf_align buf 8 ++ block_bytes (m ∷ ms)
unfolding write_block
write_block_lem buf m ms few ok =
    let small : length (m ∷ ms) % 2 ^ 32 ≡ length (m ∷ ms) = omega (arith, few) in
    let start = buf_align buf 8 in
    ap (λ n. write_pairs (start ++ le_bytes 4 n) (m ∷ ms)) small
    ∙ sym (append-nil (write_pairs (start ++ le_bytes 4 (length (m ∷ ms))) (m ∷ ms)))
    ∙ write_pairs_lem (start ++ le_bytes 4 (length (m ∷ ms))) (m ∷ ms) [] ok
    ∙ append_assoc start (le_bytes 4 (length (m ∷ ms))) (pairs_before (m ∷ ms) [])

pub block_offset :
    (buf : List ℕ) (m : MetadataKv) (ms : List MetadataKv)
    → (write_block buf (m ∷ ms)).0 ≡ length (buf_align buf 8)
unfolding write_block
block_offset buf m ms = refl

module _ (low : ℕ) where
  write_block-HasBlock :
      (buf : List ℕ) (ms : List MetadataKv)
      → low ≤ length buf
      → HasBlock low (write_block buf ms).1 ms (write_block buf ms).0
  write_block-HasBlock buf [] high some_ms few ok = absurd (omega arith)
  write_block-HasBlock buf (m ∷ ms) high some_ms few ok =
      let start = buf_align buf 8 in
      let behind : low ≤ length start = omega (arith, high, Grows-le (buf_align-Grows buf 8)) in
      subst (IsBlock low (write_block buf (m ∷ ms)).1 (m ∷ ms)) (sym (block_offset buf m ms))
        (record {
          aligned = buf_align-aligned buf;
          stands =
              subst (λ b. Stands low b (length start) (block_bytes (m ∷ ms)))
                (sym (write_block_lem buf m ms few ok))
                (Stands-end start (block_bytes (m ∷ ms)) behind);
        })

  HasBlock-Grows :
      (buf buf' : List ℕ) (ms : List MetadataKv) (off : ℕ)
      → Grows buf buf'
      → HasBlock low buf ms off
      → HasBlock low buf' ms off
  HasBlock-Grows buf buf' ms off g b some_ms few ok =
      let here = b some_ms few ok in
      record { aligned = here.aligned; stands = Stands-Grows g here.stands }

  abbrev pub AreBlocks : List ℕ → List Resource → List ℕ → Type 0
  AreBlocks buf [] [] = Unit {0}
  AreBlocks buf [] (o ∷ os) = ⊥
  AreBlocks buf (r ∷ rs) [] = ⊥
  AreBlocks buf (r ∷ rs) (o ∷ os) = HasBlock low buf r.metadata o × AreBlocks buf rs os

  pub write_metadata-AreBlocks :
      (buf buf' : List ℕ) (rs : List Resource)
      → low ≤ length buf
      → Grows (write_metadata buf rs).1 buf'
      → AreBlocks buf' rs (write_metadata buf rs).0
  unfolding write_metadata
  write_metadata-AreBlocks buf buf' [] high g = tt
  write_metadata-AreBlocks buf buf' (r ∷ rs) high g =
      let next = (write_block buf r.metadata).1 in
      let grown = Grows-le (write_block-Grows buf r.metadata) in
      (
        HasBlock-Grows next buf' r.metadata _ (Grows-trans (write_metadata-Grows next rs) g)
            (write_block-HasBlock buf r.metadata high),
        write_metadata-AreBlocks next buf' rs (omega (arith, high, grown)) g,
      )

-- ===== src/Built/Metadata.antt =====
-- `erf_metadata_get` on a block that stands in a container.
use elfrc.Base.{
  ℕ, ◌%◌, ◌^◌, ◌<◌, ◌≡◌, sym, ap, ◌∙◌, arith, List, [], ◌∷◌, ◌++◌, some, All, length, get_elem?,
  append-nil, append_assoc, replicate,
}
use elfrc.Bytes.{string_at}
use elfrc.ByteBuf.Refine.{buf_align, padding}
use elfrc.Format.{sizeof_header}
use elfrc.Manifest.{MetadataKv}
use elfrc.Container.Sections.{write_block}
use elfrc.Container.Written.Metadata.{IsBlock, block_bytes, block_offset, write_block_lem}
use elfrc.Reader.Container.{Resource, Container}
use elfrc.Reader.Metadata.{found, erf_metadata_get}
use elfrc.Reader.Metadata.Block.{IsKv}
use elfrc.Reader.Metadata.Written.{erf_metadata_get-write_block}

aligned_lem : (buf : List ℕ) → length buf % 8 ≡ 0 → buf_align buf 8 ≡ buf
aligned_lem buf e =
    let none_missing : padding (length buf) 8 ≡ 0 = ground (arith, e) in
    ap (λ (n : ℕ). buf ++ replicate n 0) none_missing ∙ append-nil buf

pub erf_metadata_get-IsBlock :
    (mem : List ℕ) (c : Container) (x : Resource) (ms : List MetadataKv) (i : ℕ) (kv : MetadataKv)
    → c.base ≡ mem
    → c.size ≡ length mem
    → length mem < 2 ^ 64
    → length ms < 2 ^ 32
    → All IsKv ms
    → get_elem? ms i ≡ some kv
    → (0 < length ms → IsBlock sizeof_header mem ms x.metadata_offset)
    → (key : ℕ) × (value : ℕ) × (erf_metadata_get (some c) (some x) (some i) ≡ found (key, value))
      × (string_at c.base key ≡ some kv.key)
      × (string_at c.base value ≡ some kv.value)
erf_metadata_get-IsBlock mem c x [] i kv base size word few ok here block = cc
erf_metadata_get-IsBlock mem c x (m ∷ ms) i kv base size word few ok here block =
    let b = block (omega arith) in
    let s = b.stands.sits in
    let front = s.front in
    let even = aligned_lem front (omega (arith, b.aligned, s.here)) in
    let whole : (write_block front (m ∷ ms)).1 ≡ front ++ block_bytes (m ∷ ms) =
      write_block_lem front m ms few ok ∙ ap (λ f. f ++ block_bytes (m ∷ ms)) even in
    erf_metadata_get-write_block c (size ∙ ap length (sym base)) (omega (arith, size)) x front
      s.back (m ∷ ms) i (omega (arith, b.stands.behind, s.here)) few ok
      (base
        ∙ s.split
        ∙ sym (append_assoc front (block_bytes (m ∷ ms)) s.back)
        ∙ ap (λ f. f ++ s.back) (sym whole))
      (s.here ∙ sym (block_offset front m ms ∙ ap length even)) here

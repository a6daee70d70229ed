-- ===== src/Container/Written/Entries.antt =====
-- The directory: each entry has its place, and its fields fit.
use elfrc.Base.{
  ℕ, zero, suc, ◌+◌, ◌*◌, ◌^◌, ◌≤◌, ◌<◌, ◌≡◌, refl, sym, ap, subst, ◌∙◌, arith, List, [], ◌∷◌, some,
  length, length-append, get_elem?, take, drop, append-nil,
}
use native.Mathlib.Nat.{add-zero}
use elfrc.Bytes.{le_bytes, with_nul}
use elfrc.Bytes.Laws.{IsCString}
use elfrc.Bytes.Sits.{Sits, Sits-left, Sits-right, Sits-room, slice-Sits}
use elfrc.Crc64.Range.{elfr_crc64_word}
use elfrc.Fnv1a.Laws.{elfr_fnv1a64-lt}
use elfrc.Format.{entry_bytes, entry_of, sizeof_entry}
use elfrc.Format.RoundTrip.{IsEntry, entry_of-entry_bytes}
use elfrc.Manifest.{Resource}
use elfrc.Container.Sections.{Files, DataSlot}
use elfrc.Container.Build.{entry_for, entries_for, entries_bytes}
use elfrc.Container.Written.Strings.{Stands, AreNamed}
use elfrc.Container.Written.Data.{IsStored, AreStored}
use elfrc.Container.Written.Metadata.{HasBlock, AreBlocks}
use elfrc.Container.Written.Blocks.{AreInside}

-- A resource whose fields fit the format, and whose name is a C string.
pub record IsBuildable (r : Resource) : Type 0 where
  pub name : IsCString r.name
  pub id : r.final_id < 2 ^ 32
  pub type : r.type < 2 ^ 32
  pub language : r.language < 2 ^ 32
  pub flags : r.flags < 2 ^ 32

pub length-entry_for :
    (r : Resource) (n m : ℕ) (s : DataSlot)
    → length (entry_bytes (entry_for r n m s)) ≡ sizeof_entry
unfolding entry_for entry_bytes le_bytes
length-entry_for r n m s = refl

module _ (low : ℕ) (files : Files) (buf : List ℕ) where
  pub length-entries_bytes :
      (rs : List Resource) (ns ms : List ℕ) (ss : List DataSlot)
      → AreNamed low buf rs ns
      → AreInside (length buf) rs ms
      → AreStored low files buf rs ss
      → length (entries_bytes (entries_for rs ns ms ss)) ≡ length rs * sizeof_entry
  unfolding entries_for entries_bytes
  length-entries_bytes [] [] [] [] n m s = refl
  length-entries_bytes [] (x ∷ ns) ms ss n m s = absurd n
  length-entries_bytes [] [] (x ∷ ms) ss n m s = absurd m
  length-entries_bytes [] [] [] (x ∷ ss) n m s = absurd s
  length-entries_bytes (r ∷ rs) [] ms ss n m s = absurd n
  length-entries_bytes (r ∷ rs) (x ∷ ns) [] ss n m s = absurd m
  length-entries_bytes (r ∷ rs) (x ∷ ns) (y ∷ ms) [] n m s = absurd s
  length-entries_bytes (r ∷ rs) (x ∷ ns) (y ∷ ms) (z ∷ ss) (_, n) (_, m) (_, s) = omega (
    arith,
    length-append (entry_bytes (entry_for r x y z)) (entries_bytes (entries_for rs ns ms ss)),
    length-entry_for r x y z,
    length-entries_bytes rs ns ms ss n m s,
  )

  -- The entry at `off` is that of `r`, whose name and data stand where it says.
  pub record HasPlace (mem : List ℕ) (off : ℕ) (r : Resource) : Type 0 where
    pub name_at : ℕ
    pub block_at : ℕ
    pub slot : DataSlot
    pub named : Stands low buf name_at (with_nul r.name)
    pub inside : block_at ≤ length buf
    pub block : HasBlock low buf r.metadata block_at
    pub stored : IsStored low files buf r slot
    pub entry : Sits mem off (entry_bytes (entry_for r name_at block_at slot))

  pub entries_bytes-HasPlace :
      (mem : List ℕ) (off : ℕ) (rs : List Resource) (ns ms : List ℕ) (ss : List DataSlot)
      → AreNamed low buf rs ns
      → AreInside (length buf) rs ms
      → AreBlocks low buf rs ms
      → AreStored low files buf rs ss
      → Sits mem off (entries_bytes (entries_for rs ns ms ss))
      → (j : ℕ) (r : Resource) → get_elem? rs j ≡ some r
      → HasPlace mem (off + j * sizeof_entry) r
  unfolding entries_for entries_bytes
  entries_bytes-HasPlace mem off [] ns ms ss n m v s sits j r e = cc
  entries_bytes-HasPlace mem off (x ∷ rs) [] ms ss n m v s sits j r e = absurd n
  entries_bytes-HasPlace mem off (x ∷ rs) (a ∷ ns) [] ss n m v s sits j r e = absurd m
  entries_bytes-HasPlace mem off (x ∷ rs) (a ∷ ns) (b ∷ ms) [] n m v s sits j r e = absurd s
  entries_bytes-HasPlace mem off (x ∷ rs) (a ∷ ns) (b ∷ ms) (c ∷ ss) (n, _) (m, _) (v, _) (s, _)
        sits zero r e =
      let this : x ≡ r = cc in
      subst (HasPlace mem (off + 0)) this (record {
        name_at = a;
        block_at = b;
        slot = c;
        named = n;
        inside = m;
        block = v;
        stored = s;
        entry =
            subst (λ k. Sits mem k (entry_bytes (entry_for x a b c))) (sym (add-zero off))
              (Sits-left (entry_bytes (entry_for x a b c)) (entries_bytes (entries_for rs ns ms ss))
                sits);
      })
  entries_bytes-HasPlace mem off (x ∷ rs) (a ∷ ns) (b ∷ ms) (c ∷ ss) (_, n) (_, m) (_, v) (_, s)
        sits (suc j) r e =
      let first = entry_bytes (entry_for x a b c) in
      let rest = Sits-right first (entries_bytes (entries_for rs ns ms ss)) sits in
      subst (λ k. HasPlace mem k r) (omega (arith, length-entry_for x a b c))
        (entries_bytes-HasPlace mem (off + length first) rs ns ms ss n m v s rest j r e)

  -- If the container is shorter than 2^32, each field fits.
  entry_for-IsEntry :
      (r : Resource) (n m : ℕ) (s : DataSlot)
      → IsBuildable r
      → length buf < 2 ^ 32
      → Stands low buf n (with_nul r.name)
      → m ≤ length buf
      → IsStored low files buf r s
      → IsEntry (entry_for r n m s)
  unfolding entry_for
  entry_for-IsEntry r n m s ok small named inside stored = record {
    id = ok.id;
    type = ok.type;
    language = ok.language;
    flags = ok.flags;
    name_offset = omega (arith, Sits-room named.sits);
    reserved0 = omega arith;
    data_offset = omega (arith, Sits-room stored.stands.sits);
    data_size = omega (arith, stored.size, Sits-room stored.stands.sits);
    original_size = omega (arith, stored.size, Sits-room stored.stands.sits);
    metadata_offset = omega arith;
    hash = elfr_fnv1a64-lt r.name;
    checksum = subst (λ (c : ℕ). c < 2 ^ 64) (sym stored.checksum) (elfr_crc64_word stored.content);
    timestamp = omega arith;
    reserved_length = refl;
    reserved = (
      omega arith,
      (omega arith, (omega arith, (omega arith, (omega arith, (omega arith, tt))))),
    );
  }

  pub decoded_entry :
      (mem : List ℕ) (off : ℕ) (r : Resource)
      → IsBuildable r
      → length buf < 2 ^ 32
      → (p : HasPlace mem off r)
      → entry_of (take sizeof_entry (drop off mem)) ≡ entry_for r p.name_at p.block_at p.slot
  decoded_entry mem off r ok small p =
      let e = entry_for r p.name_at p.block_at p.slot in
      ap entry_of (
        slice-Sits (entry_bytes e) (sym (length-entry_for r p.name_at p.block_at p.slot)) p.entry
        ∙ sym (append-nil (entry_bytes e)))
      ∙ entry_of-entry_bytes e []
          (entry_for-IsEntry r p.name_at p.block_at p.slot ok small p.named p.inside p.stored)

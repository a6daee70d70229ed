-- ===== src/Container/Written/Data.antt =====
-- The data of the resources: each file's bytes stand in their slot.
use elfrc.Base.{
  ℕ, ◌≤◌, ◌≡◌, refl, ap, subst, ◌∙◌, arith, List, [], ◌∷◌, ◌++◌, length, length-append, replicate,
}
use elfrc.ByteBuf.Refine.{buf_append, buf_align, padding}
use elfrc.Crc64.{elfr_crc64}
use elfrc.Manifest.{Resource}
use elfrc.Container.Sections.{
  Files, Loaded, loaded, failed, ◌>>=◌, load_file, DataSlot, data_slot, write_data,
}
use elfrc.Container.Written.Strings.{
  Grows, Grows-refl, Grows-append, Grows-trans, Grows-le, Stands, Stands-Grows, Stands-end,
}

-- A slot holds the content of the resource's file, its length and its checksum.
pub record IsStored (low : ℕ) (files : Files) (buf : List ℕ) (r : Resource) (slot : DataSlot)
    : Type 0 where
  pub content : List ℕ
  pub from_file : load_file files r ≡ loaded content
  pub stands : Stands low buf slot.offset content
  pub size : slot.size ≡ length content
  pub checksum : slot.checksum ≡ elfr_crc64 content

abbrev pub AreStored : ℕ → Files → List ℕ → List Resource → List DataSlot → Type 0
AreStored low files buf [] [] = Unit {0}
AreStored low files buf [] (s ∷ ss) = ⊥
AreStored low files buf (r ∷ rs) [] = ⊥
AreStored low files buf (r ∷ rs) (s ∷ ss) =
    IsStored low files buf r s × AreStored low files buf rs ss

pub buf_align-Grows : (buf : List ℕ) (n : ℕ) → Grows buf (buf_align buf n)
buf_align-Grows buf n = Grows-append buf (replicate (padding (length buf) n) 0)

-- One round.
data_inversion :
    (start : List ℕ) (m : Loaded (List ℕ)) (k : List ℕ → Loaded (List DataSlot × List ℕ))
    (slots : List DataSlot) (buf' : List ℕ)
    → ◌≡◌ {A = Loaded (List DataSlot × List ℕ)}
        (do bytes ← m; (ss, b) ← k (buf_append start bytes); loaded (data_slot start bytes ∷ ss, b))
        (loaded (slots, buf'))
    → (bytes : List ℕ) × (ss : List DataSlot) × (m ≡ loaded bytes)
      × (k (buf_append start bytes) ≡ loaded (ss, buf'))
      × (data_slot start bytes ∷ ss ≡ slots)
data_inversion start (failed x) k slots buf' e = cc
data_inversion start (loaded bytes) k slots buf' e = by_rest (k (buf_append start bytes)) refl e
  where
    by_rest :
        (o : Loaded (List DataSlot × List ℕ))
        → k (buf_append start bytes) ≡ o
        → ◌≡◌ {A = Loaded (List DataSlot × List ℕ)}
            (o >>= λ (ss, b). loaded (data_slot start bytes ∷ ss, b))
            (loaded (slots, buf'))
        → (b : List ℕ) × (ss : List DataSlot) × (loaded bytes ≡ loaded b)
          × (k (buf_append start b) ≡ loaded (ss, buf'))
          × (data_slot start b ∷ ss ≡ slots)
    by_rest (failed x) f e = cc
    by_rest (loaded (ss, b)) f e =
        (bytes, ss, refl, f ∙ ap (λ (x : List ℕ). loaded (ss, x)) (cc), cc)

pub write_data-AreStored :
    (low : ℕ) (files : Files) (buf : List ℕ) (rs : List Resource) (slots : List DataSlot)
    (buf' : List ℕ)
    → low ≤ length buf
    → write_data files buf rs ≡ loaded (slots, buf')
    → Grows buf buf' × AreStored low files buf' rs slots
unfolding write_data
write_data-AreStored low files buf [] slots buf' high e =
    let same : ◌≡◌ {A = List DataSlot × List ℕ} ([], buf) (slots, buf') = cc in
    subst (λ (p : List DataSlot × List ℕ). Grows buf p.1 × AreStored low files p.1 [] p.0) same
      (Grows-refl buf, tt)
write_data-AreStored low files buf (r ∷ rs) slots buf' high e =
    let start = buf_align buf 16 in
    let (bytes, ss, got, rest, same) =
      data_inversion start (load_file files r) (λ b. write_data files b rs) slots buf' e in
    let (grows, stored) =
      write_data-AreStored low files (start ++ bytes) rs ss buf'
        (omega (arith, high, Grows-le (buf_align-Grows buf 16), length-append start bytes)) rest in
    let here : IsStored low files buf' r (data_slot start bytes) = record {
      content = bytes;
      from_file = got;
      stands =
          Stands-Grows grows
            (Stands-end start bytes (omega (arith, high, Grows-le (buf_align-Grows buf 16))));
      size = refl;
      checksum = refl;
    } in
    (
      Grows-trans (buf_align-Grows buf 16) (Grows-trans (Grows-append start bytes) grows),
      subst (AreStored low files buf' (r ∷ rs)) same (here, stored),
    )

-- ===== src/Reader/Metadata/Block.antt =====
-- The bytes of a metadata block, as `elfrc_container_build` lays them out behind a buffer.
use elfrc.Base.{
  ℕ, zero, suc, ◌+◌, ◌%◌, ◌^◌, ◌<◌, ◌≡◌, refl, ap, ◌∙◌, arith, List, [], ◌∷◌, ◌++◌, length, take,
  All, length-append, append_assoc,
}
use elfrc.Bytes.{le_bytes, with_nul}
use elfrc.Bytes.Laws.{IsCString}
use elfrc.Manifest.{MetadataKv}
use elfrc.Container.Sections.{write_string, write_pairs, write_block}

-- The bytes of a string's field, with `rest` behind them.
unfoldable pub string_before : List ℕ → List ℕ → List ℕ
string_before s rest = le_bytes 4 (length s) ++ (with_nul s ++ rest)

unfoldable pub pairs_before : List MetadataKv → List ℕ → List ℕ
pairs_before [] rest = rest
pairs_before (m ∷ ms) rest = string_before m.key (string_before m.value (pairs_before ms rest))

-- The block can be represented: C strings whose lengths fit 32 bits, the zero byte counted.
abbrev pub IsKv : MetadataKv → Type 0
IsKv m =
    IsCString m.key
    × (length m.key + 1 < 2 ^ 32)
    × IsCString m.value
    × (length m.value + 1 < 2 ^ 32)

take_all : (xs : List ℕ) (n : ℕ) → length xs ≡ n → take n xs ≡ xs
take_all [] zero e = refl
take_all [] (suc n) e = refl
take_all (x ∷ xs) zero e = absurd (omega arith)
take_all (x ∷ xs) (suc n) e = ap (λ t. x ∷ t) (take_all xs n (omega arith))

write_string_lem :
    (buf s rest : List ℕ)
    → length s + 1 < 2 ^ 32
    → write_string buf s ++ rest ≡ buf ++ string_before s rest
unfolding write_string string_before
write_string_lem buf s rest fits =
    let small : length s % 2 ^ 32 ≡ length s = omega (arith, fits) in
    let whole : (length s + 1) % 2 ^ 32 ≡ length s + 1 = omega (arith, fits) in
    let all : take (length s + 1) (with_nul s) ≡ with_nul s =
      take_all (with_nul s) (length s + 1) (length-append s (0 ∷ [])) in
    rw (small, whole, all)
      (append_assoc (buf ++ le_bytes 4 (length s)) (with_nul s) rest
        ∙ append_assoc buf (le_bytes 4 (length s)) (with_nul s ++ rest))

pub write_pairs_lem :
    (buf : List ℕ) (ms : List MetadataKv) (rest : List ℕ)
    → All IsKv ms
    → write_pairs buf ms ++ rest ≡ buf ++ pairs_before ms rest
unfolding write_pairs pairs_before
write_pairs_lem buf [] rest ok = refl
write_pairs_lem buf (m ∷ ms) rest ((_, k, _, v), ok) =
    write_pairs_lem (write_string (write_string buf m.key) m.value) ms rest ok
    ∙ write_string_lem (write_string buf m.key) m.value (pairs_before ms rest) v
    ∙ write_string_lem buf m.key (string_before m.value (pairs_before ms rest)) k

pub write_block-pos :
    (buf : List ℕ) (ms : List MetadataKv)
    → 0 < length buf
    → 0 < length ms
    → 0 < (write_block buf ms).0
unfolding write_block
write_block-pos buf [] filled some_ms = absurd (omega arith)
write_block-pos buf (m ∷ ms) filled some_ms = omega (arith, filled, length-append buf _)

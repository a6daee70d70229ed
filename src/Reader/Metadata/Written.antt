-- ===== src/Reader/Metadata/Written.antt =====
-- The metadata that `elfrc_container_build` writes is what `erf_metadata_get` reads.
use elfrc.Base.{
  ℕ, zero, suc, ◌+◌, ◌%◌, ◌^◌, ◌<◌, ◌≡◌, refl, sym, ap, ◌∙◌, arith, List, [], ◌∷◌, ◌++◌, none, some,
  false, not, leb, ◌==◌, if◌then◌else◌, length, get_elem?, All, length-append, append_assoc, subst,
}
use elfrc.Bytes.{read, le_bytes, string_at, with_nul}
use elfrc.Bytes.Laws.{read-append, length-le_bytes, le_value-le_bytes, IsCString, string_at-append}
use elfrc.ByteBuf.Refine.{buf_append, buf_align}
use elfrc.Manifest.{MetadataKv}
use elfrc.Container.Sections.{write_block}
use elfrc.Reader.Metadata.Block.{
  string_before, pairs_before, IsKv, write_pairs_lem, write_block-pos,
}
use elfrc.Reader.Container.{Resource, Container}
use elfrc.Reader.Open.Checks.{in_bounds_iff}
use elfrc.Reader.Metadata.{
  Answer, found, failed, ◌>>=◌, ◌>>◌, require, read_u32, read_string, read_pair, nth_pair,
  erf_metadata_get,
}

some_ap {ℓ κ} :
    {A : Type ℓ} {B : Type κ} (f : A → B) {x y : A} → some x ≡ some y → some (f x) ≡ some (f y)
some_ap f e = ap (λ o. elim o [ none ↦ none | some a ↦ some (f a) ]) e

-- From `off` on, the memory of the container is `tail`.
record At (c : Container) (off : ℕ) (tail : List ℕ) : Type 0 where
  front : List ℕ
  split : c.base ≡ front ++ tail
  here : off ≡ length front

get_elem?-lt {ℓ} :
    {A : Type ℓ} (xs : List A) (i : ℕ) {x : A} → get_elem? xs i ≡ some x → i < length xs
get_elem?-lt [] i e = cc
get_elem?-lt (x ∷ xs) zero e = omega arith
get_elem?-lt (x ∷ xs) (suc i) e = omega (arith, get_elem?-lt xs i e)

get_steps :
    (c : Container) (off i count : ℕ) {answer : ℕ × ℕ}
    → (off == 0) ≡ false
    → read_u32 c off ≡ found count
    → leb count i ≡ false
    → (off + 4) % 2 ^ 64 ≡ off + 4
    → nth_pair c i (off + 4) ≡ found answer
    → (if off == 0
        then failed
        else (read_u32 c off >>= λ n. require (not (leb n i)) >> nth_pair c i ((off + 4) % 2 ^ 64)))
      ≡ found answer
get_steps c off i count present got in_range at answer =
    rw (present, got, in_range, at, answer) refl

module _ (c : Container) (sized : c.size ≡ length c.base) (word : c.size < 2 ^ 64) where
  advance : (off : ℕ) (xs tail : List ℕ) → At c off (xs ++ tail) → At c (off + length xs) tail
  advance off xs tail a = record {
    front = a.front ++ xs;
    split = a.split ∙ sym (append_assoc a.front xs tail);
    here = omega (arith, a.here, length-append a.front xs);
  }

  At-le : (off : ℕ) (tail : List ℕ) → At c off tail → off + length tail ≡ c.size
  At-le off tail a = omega (arith, a.here, sized, ap length a.split, length-append a.front tail)

  read_u32-At :
      (off v : ℕ) (tail : List ℕ)
      → v < 2 ^ 32
      → At c off (le_bytes 4 v ++ tail)
      → read_u32 c off ≡ found v
  unfolding read_u32
  read_u32-At off v tail small a =
      let inside =
        (in_bounds_iff c.size off 4).1
          (omega (arith, At-le off _ a, length-append (le_bytes 4 v) tail, length-le_bytes 4 v)) in
      let got =
        ap (λ b. read b off 4) a.split
        ∙ read-append a.front (le_bytes 4 v) tail off 4 a.here (sym (length-le_bytes 4 v)) in
      rw (inside, got) (ap found (le_value-le_bytes 4 v small))

  string_at-At :
      (off : ℕ) (s tail : List ℕ)
      → IsCString s
      → At c off (with_nul s ++ tail)
      → string_at c.base off ≡ some s
  string_at-At off s tail ok a =
      ap (λ b. string_at b off) a.split ∙ string_at-append a.front s tail off a.here ok

  -- A field is read, and the offset behind it is where the rest begins.
  read_string-At :
      (off : ℕ) (s rest : List ℕ)
      → length s + 1 < 2 ^ 32
      → At c off (string_before s rest)
      → read_string c off ≡ found (off + 4, off + 4 + (length s + 1))
  unfolding read_string string_before
  read_string-At off s rest small a =
      let got = read_u32-At off (length s) (with_nul s ++ rest) (omega (arith, small)) a in
      let fits : off + (4 + (length s + 1 + length rest)) ≡ c.size = omega (
        arith,
        At-le off _ a,
        length-append (le_bytes 4 (length s)) (with_nul s ++ rest),
        length-le_bytes 4 (length s),
        length-append (with_nul s) rest,
        length-append s (0 ∷ []),
      ) in
      let at : (off + 4) % 2 ^ 64 ≡ off + 4 = omega (arith, fits, word) in
      let behind : (off + 4 + (length s + 1)) % 2 ^ 64 ≡ off + 4 + (length s + 1) =
        omega (arith, fits, word) in
      let inside = (in_bounds_iff c.size (off + 4) (length s + 1)).1 (omega (arith, fits)) in
      rw (got, at, inside, behind) refl

  At-text :
      (off : ℕ) (s rest : List ℕ)
      → At c off (string_before s rest)
      → At c (off + 4) (with_nul s ++ rest)
  unfolding string_before
  At-text off s rest a =
      subst (λ n. At c (off + n) (with_nul s ++ rest)) (length-le_bytes 4 (length s))
        (advance off (le_bytes 4 (length s)) (with_nul s ++ rest) a)

  At-rest :
      (off : ℕ) (s rest : List ℕ)
      → At c off (string_before s rest)
      → At c (off + 4 + (length s + 1)) rest
  At-rest off s rest a =
      subst (λ n. At c (off + 4 + n) rest) (length-append s (0 ∷ []))
        (advance (off + 4) (with_nul s) rest (At-text off s rest a))

  -- The pair that is found, as offsets and as the strings that stand there.
  abbrev Answers : Answer (ℕ × ℕ) → MetadataKv → Type 0
  Answers answer m =
      (key : ℕ) × (value : ℕ) × (answer ≡ found (key, value))
      × (string_at c.base key ≡ some m.key)
      × (string_at c.base value ≡ some m.value)

  read_pair-At :
      (off : ℕ) (m : MetadataKv) (rest : List ℕ)
      → IsKv m
      → At c off (string_before m.key (string_before m.value rest))
      → (key : ℕ) × (value : ℕ) × (next : ℕ) × (read_pair c off ≡ found (key, value, next))
        × (string_at c.base key ≡ some m.key)
        × (string_at c.base value ≡ some m.value)
        × At c next rest
  unfolding read_pair
  read_pair-At off m rest (key_ok, key_fits, value_ok, value_fits) a =
      let b = At-rest off m.key (string_before m.value rest) a in
      let second = off + 4 + (length m.key + 1) in
      (
        off + 4,
        second + 4,
        second + 4 + (length m.value + 1),
        rw (read_string-At off m.key _ key_fits a, read_string-At second m.value rest value_fits b)
            refl,
        string_at-At (off + 4) m.key _ key_ok (At-text off m.key _ a),
        string_at-At (second + 4) m.value rest value_ok (At-text second m.value rest b),
        At-rest second m.value rest b,
      )

  nth_pair-At :
      (off : ℕ) (ms : List MetadataKv) (i : ℕ) (rest : List ℕ) {m : MetadataKv}
      → All IsKv ms
      → get_elem? ms i ≡ some m
      → At c off (pairs_before ms rest)
      → Answers (nth_pair c i off) m
  unfolding nth_pair pairs_before
  nth_pair-At off [] i rest ok here a = cc
  nth_pair-At off (m ∷ ms) zero rest (kv, ok) here a =
      let (key, value, next, got, is_key, is_value, _) =
        read_pair-At off m (pairs_before ms rest) kv a in
      (
        key,
        value,
        rw got refl,
        is_key ∙ some_ap (λ m. m.key) here,
        is_value ∙ some_ap (λ m. m.value) here,
      )
  nth_pair-At off (m ∷ ms) (suc i) rest (kv, ok) here a =
      let (key, value, next, got, _, _, b) = read_pair-At off m (pairs_before ms rest) kv a in
      let (k, v, answer, is_key, is_value) = nth_pair-At next ms i rest ok here b in
      (k, v, rw got answer, is_key, is_value)

  At-block :
      (buf back : List ℕ) (ms : List MetadataKv) (off : ℕ)
      → All IsKv ms
      → length ms < 2 ^ 32
      → 0 < length ms
      → c.base ≡ (write_block buf ms).1 ++ back
      → off ≡ (write_block buf ms).0
      → At c off (le_bytes 4 (length ms) ++ pairs_before ms back)
  unfolding write_block
  At-block buf back [] off ok few some_ms base at = absurd (omega arith)
  At-block buf back (m ∷ ms) off ok few some_ms base at =
      let small : length (m ∷ ms) % 2 ^ 32 ≡ length (m ∷ ms) = omega (arith, few) in
      let start = buf_align buf 8 in
      record {
        front = buf_align buf 8;
        split =
            base
            ∙ write_pairs_lem (buf_append start (le_bytes 4 (length (m ∷ ms) % 2 ^ 32))) (m ∷ ms)
                back ok
            ∙ ap (λ n. (start ++ le_bytes 4 n) ++ pairs_before (m ∷ ms) back) small
            ∙ append_assoc start (le_bytes 4 (length (m ∷ ms))) (pairs_before (m ∷ ms) back);
        here = at;
      }

  -- The builder writes the pairs `ms` of a resource behind a buffer that is not empty, and more
  -- bytes follow: all of them are the container's memory, which is smaller than 2^64. The pairs
  -- are fewer than 2^32, and C strings whose lengths fit 32 bits with the zero byte. Then, for the
  -- resource with the block's offset, `erf_metadata_get` of index `i` points at the key and at the
  -- value of the `i`-th pair, zero-terminated.
  pub erf_metadata_get-write_block :
      (r : Resource) (buf back : List ℕ) (ms : List MetadataKv) (i : ℕ) {m : MetadataKv}
      → 0 < length buf
      → length ms < 2 ^ 32
      → All IsKv ms
      → c.base ≡ (write_block buf ms).1 ++ back
      → r.metadata_offset ≡ (write_block buf ms).0
      → get_elem? ms i ≡ some m
      → Answers (erf_metadata_get (some c) (some r) (some i)) m
  unfolding erf_metadata_get
  erf_metadata_get-write_block r buf back ms i filled few ok base at here =
      let bound = get_elem?-lt ms i here in
      let off = r.metadata_offset in
      let a = At-block buf back ms off ok few (omega (arith, bound)) base at in
      let present : (off == 0) ≡ false =
        ground (arith, at, write_block-pos buf ms filled (omega (arith, bound))) in
      let got = read_u32-At off (length ms) (pairs_before ms back) few a in
      let b =
        subst (λ n. At c (off + n) (pairs_before ms back)) (length-le_bytes 4 (length ms))
          (advance off (le_bytes 4 (length ms)) (pairs_before ms back) a) in
      let word_off : (off + 4) % 2 ^ 64 ≡ off + 4 =
        omega (arith, At-le (off + 4) (pairs_before ms back) b, word) in
      let in_range : leb (length ms) i ≡ false = ground (arith, bound) in
      let (k, v, answer, is_key, is_value) = nth_pair-At (off + 4) ms i back ok here b in
      (k, v, get_steps c off i (length ms) present got in_range word_off answer, is_key, is_value)

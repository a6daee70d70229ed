-- ===== src/ByteBuf/Refine.antt =====
-- The growing buffer against a plain byte sequence: what the clients of byte_buf.c rely on.
use mathlib.Core.Option
use elfrc.Base.{
  ℕ, ◌+◌, ◌-◌, ◌*◌, ◌/◌, ◌%◌, ◌^◌, ◌≤◌, ◌<◌, ◌≡◌, refl, ap, ◌∙◌, arith, List, [], ◌∷◌, ◌++◌, Option,
  some, ◌==◌, if◌then◌else◌, length, length-append, replicate, length-replicate, append-nil, ==_iff,
  Bool-cases, inl, inr, true, false,
}
use elfrc.ByteBuf.{
  ByteBuf, empty, size_max, byte_buf_reserve, byte_buf_append, byte_buf_append_zeros,
  byte_buf_align,
}
use elfrc.Base.Maybe.{◌>>=◌}
use native.Mathlib.Nat.{add-zero, mod-lt, div-add-mod, mul-mod_right}
use elfrc.ByteBuf.Grow.{Reserved, byte_buf_reserve-Reserved}

-- The bytes needed to reach the next multiple of `alignment`.
abbrev pub padding : ℕ → ℕ → ℕ
padding len alignment = if len % alignment == 0 then 0 else alignment - len % alignment

-- The abstract buffer is the sequence of the bytes written so far.
abbrev pub buf_append : List ℕ → List ℕ → List ℕ
buf_append buf bytes = buf ++ bytes

abbrev pub buf_append_zeros : List ℕ → ℕ → List ℕ
buf_append_zeros buf n = buf ++ replicate n 0

abbrev pub buf_align : List ℕ → ℕ → List ℕ
buf_align buf alignment = buf ++ replicate (padding (length buf) alignment) 0

-- `b` holds `bytes`.
pub record Holds (bytes : List ℕ) (b : ByteBuf) : Type 0 where
  pub contents : b.stored ≡ bytes
  pub counted : b.len ≡ length bytes
  pub within : b.len ≤ b.cap
  pub word : b.cap < size_max

pub empty-Holds : Holds [] empty
empty-Holds = record { contents = refl; counted = refl; within = omega arith; word = omega arith }

-- The buffer after `more`, of `n` bytes, was written behind the bytes of `r`.
abbrev written : ByteBuf → List ℕ → ℕ → ByteBuf
written r more n = record r { stored = r.stored ++ more; len = (r.len + n) % size_max }

append_after :
    (b r : ByteBuf) (more : List ℕ) (off : ℕ)
    → byte_buf_reserve b (length more) ≡ some r
    → r.len ≡ off
    → byte_buf_append b more ≡ some (off, written r more (length more))
unfolding byte_buf_append
append_after b r more off e o = rw e (ap (λ t. some (t, written r more (length more))) o)

zeros_after :
    (b r : ByteBuf) (n off : ℕ)
    → byte_buf_reserve b n ≡ some r
    → r.len ≡ off
    → byte_buf_append_zeros b n ≡ some (off, written r (replicate n 0) n)
unfolding byte_buf_append_zeros
zeros_after b r n off e o = rw e (ap (λ t. some (t, written r (replicate n 0) n)) o)

written-Holds :
    (bytes more : List ℕ) (n : ℕ) (b r : ByteBuf)
    → length more ≡ n
    → Holds bytes b
    → Reserved b n r
    → length bytes + n ≤ 2 ^ 63
    → Holds (bytes ++ more) (written r more n)
written-Holds bytes more n b r e held res small =
    let total = length-append bytes more in
    record {
      contents = ap (λ t. t ++ more) (res.same_bytes ∙ held.contents);
      counted = omega (arith, total, held.counted, res.same_len);
      within = omega (arith, total, held.counted, res.same_len, res.room);
      word = res.word;
    }

align_aligned :
    (b : ByteBuf) (alignment len : ℕ)
    → b.len ≡ len
    → (len % alignment == 0) ≡ true
    → byte_buf_align b alignment ≡ some b
unfolding byte_buf_align
align_aligned b alignment len e aligned = ground arith

align_padded :
    (b r : ByteBuf) (alignment len : ℕ) {off : ℕ}
    → b.len ≡ len
    → (len % alignment == 0) ≡ false
    → byte_buf_append_zeros b (alignment - len % alignment) ≡ some (off, r)
    → byte_buf_align b alignment ≡ some r
unfolding byte_buf_align
align_padded b r alignment len e padded run = ground arith

module _ (bytes : List ℕ) (b : ByteBuf) (held : Holds bytes b) where
  -- `byte_buf_append` ends, returns the old length, and appends.
  pub byte_buf_append-Holds :
      (more : List ℕ)
      → length bytes + length more ≤ 2 ^ 63
      → (r : ByteBuf) × (byte_buf_append b more ≡ some (length bytes, r))
        × Holds (buf_append bytes more) r
  byte_buf_append-Holds more small =
      let (r, run, res) =
        byte_buf_reserve-Reserved b (length more) (omega (arith, held.counted)) held.word in
      (
        written r more (length more),
        append_after b r more (length bytes) run (res.same_len ∙ held.counted),
        written-Holds bytes more (length more) b r refl held res small,
      )

  pub byte_buf_append_zeros-Holds :
      (n : ℕ)
      → length bytes + n ≤ 2 ^ 63
      → (r : ByteBuf) × (byte_buf_append_zeros b n ≡ some (length bytes, r))
        × Holds (buf_append_zeros bytes n) r
  byte_buf_append_zeros-Holds n small =
      let (r, run, res) = byte_buf_reserve-Reserved b n (omega (arith, held.counted)) held.word in
      (
        written r (replicate n 0) n,
        zeros_after b r n (length bytes) run (res.same_len ∙ held.counted),
        written-Holds bytes (replicate n 0) n b r (length-replicate {A = ℕ} n 0) held res small,
      )

  -- `byte_buf_align` ends, and pads with zeros to the next multiple.
  pub byte_buf_align-Holds :
      (alignment : ℕ)
      → length bytes + padding (length bytes) alignment ≤ 2 ^ 63
      → (r : ByteBuf) × (byte_buf_align b alignment ≡ some r) × Holds (buf_align bytes alignment) r
  byte_buf_align-Holds alignment small = elim (Bool-cases (length bytes % alignment == 0)) [
    | inl aligned ↦ (
      b,
      align_aligned b alignment (length bytes) held.counted aligned,
      rw (aligned, append-nil) held,
    )
    | inr off ↦
        let n = alignment - length bytes % alignment in
        let (r, run, kept) = byte_buf_append_zeros-Holds n (rw off at small) in
        (r, align_padded b r alignment (length bytes) held.counted off run, rw off kept)
  ]

-- Padding reaches a multiple, and is shorter than the alignment.
pub padding_lem :
    (len alignment : ℕ)
    → 0 < alignment
    → ((len + padding len alignment) % alignment ≡ 0) × (padding len alignment < alignment)
padding_lem len alignment pos = elim (Bool-cases (len % alignment == 0)) [
  | inl aligned ↦
      let e : len % alignment ≡ 0 = (==_iff (len % alignment) 0).0 aligned in
      rw (aligned, add-zero) (e, pos)
  | inr off ↦
      let e : len + (alignment - len % alignment) ≡ alignment * (len / alignment + 1) =
        omega (arith, div-add-mod len alignment, mod-lt len pos) in
      let below : alignment - len % alignment < alignment = ground arith in
      rw (off, e) (mul-mod_right alignment (len / alignment + 1), below)
]

-- A client's calls, in order.
pub data Call : Type 0 where
  append : List ℕ → Call
  append_zeros : ℕ → Call
  align : ℕ → Call

-- One call on the buffer of byte_buf.c, and on the plain sequence.
unfoldable pub call : Call → ByteBuf → Option ByteBuf
call (append bytes) b = Option.map (λ r. r.1) (byte_buf_append b bytes)
call (append_zeros n) b = Option.map (λ r. r.1) (byte_buf_append_zeros b n)
call (align n) b = byte_buf_align b n

unfoldable pub call_abstract : Call → List ℕ → List ℕ
call_abstract (append bytes) buf = buf_append buf bytes
call_abstract (append_zeros n) buf = buf_append_zeros buf n
call_abstract (align n) buf = buf_align buf n

unfoldable pub calls : List Call → ByteBuf → Option ByteBuf
calls [] b = some b
calls (c ∷ cs) b = call c b >>= calls cs

unfoldable pub calls_abstract : List Call → List ℕ → List ℕ
calls_abstract [] buf = buf
calls_abstract (c ∷ cs) buf = calls_abstract cs (call_abstract c buf)

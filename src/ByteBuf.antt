-- ===== src/ByteBuf.antt =====
-- src/common/byte_buf.c: the growing byte buffer. `stored` is `data[0..len)`; the bytes between
-- `len` and `cap` hold nothing that the code reads. `size_t` arithmetic is cut to 64 bits.
-- A failing `realloc` is not modelled: the source does not check for it.
pub mod Grow
pub mod Refine
mod Tests
use mathlib.Core.Option
use elfrc.Base.{
  ℕ, zero, suc, ◌+◌, ◌-◌, ◌*◌, ◌%◌, ◌^◌, List, [], ◌∷◌, ◌++◌, Option, none, some, ltb, leb, ◌==◌,
  if◌then◌else◌, length, replicate,
}

pub record ByteBuf : Type 0 where
  pub stored : List ℕ
  pub len : ℕ
  pub cap : ℕ

abbrev pub size_max : ℕ
size_max = 2 ^ 64

-- `struct byte_buf b = {0}`, which is also what `byte_buf_free` leaves.
abbrev pub empty : ByteBuf
empty = record { stored = []; len = 0; cap = 0 }

unfoldable pub byte_buf_free : ByteBuf → ByteBuf
byte_buf_free b = empty

-- `while (newcap < need) newcap *= 2;` with fuel. `none` means that the loop still runs.
unfoldable pub grow_cap : ℕ → ℕ → ℕ → Option ℕ
grow_cap zero newcap need = none
grow_cap (suc fuel) newcap need =
    let more = grow_cap fuel (newcap * 2 % size_max) need in
    if ltb newcap need then more else some newcap

-- Sixty-four rounds: after them a capacity that never wrapped has passed every 64-bit size.
unfoldable pub byte_buf_reserve : ByteBuf → ℕ → Option ByteBuf
byte_buf_reserve b extra =
    let need = (b.len + extra) % size_max in
    let newcap = if b.cap == 0 then 4096 else b.cap * 2 % size_max in
    if leb need b.cap
    then some b
    else Option.map (λ c. record b { cap = c }) (grow_cap 64 newcap need)

-- The offset at which the bytes were put, and the buffer.
unfoldable pub byte_buf_append : ByteBuf → List ℕ → Option (ℕ × ByteBuf)
byte_buf_append b bytes =
    Option.map
      (λ r.
        (r.len, record r { stored = r.stored ++ bytes; len = (r.len + length bytes) % size_max }))
      (byte_buf_reserve b (length bytes))

unfoldable pub byte_buf_append_zeros : ByteBuf → ℕ → Option (ℕ × ByteBuf)
byte_buf_append_zeros b n =
    Option.map
      (λ r. (r.len, record r { stored = r.stored ++ replicate n 0; len = (r.len + n) % size_max }))
      (byte_buf_reserve b n)

unfoldable pub byte_buf_align : ByteBuf → ℕ → Option ByteBuf
byte_buf_align b alignment =
    let rem = b.len % alignment in
    if rem == 0 then some b else Option.map (λ r. r.1) (byte_buf_append_zeros b (alignment - rem))

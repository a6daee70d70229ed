-- ===== src/ByteBuf/Grow.antt =====
-- `byte_buf_reserve` ends and makes room.
use elfrc.Base.{
  ℕ, zero, suc, ◌+◌, ◌*◌, ◌%◌, ◌^◌, ◌≤◌, ◌<◌, ◌≡◌, refl, ◌⊎◌, inl, inr, arith, some, leb, le→leb,
  false, ◌∙◌, dec_lt, ◌==◌, if◌then◌else◌, lt→ltb, ap,
}
use native.Mathlib.Nat.{pow-suc}
use elfrc.ByteBuf.{ByteBuf, size_max, grow_cap, byte_buf_reserve}

grow_cap_go :
    (fuel c need : ℕ)
    → c < need
    → c * 2 < size_max
    → grow_cap (suc fuel) c need ≡ grow_cap fuel (c * 2) need
unfolding grow_cap
grow_cap_go fuel c need below word =
    let wrap : c * 2 % size_max ≡ c * 2 = omega arith in
    rw (lt→ltb c need below) (ap (λ t. grow_cap fuel t need) wrap)

grow_cap_stop : (fuel c need : ℕ) → need ≤ c → grow_cap (suc fuel) c need ≡ some c
unfolding grow_cap
grow_cap_stop fuel c need room = ground arith

-- The loop stops once enough rounds are given, with room for `need` and less than twice that,
-- unless the first capacity was enough.
grow_cap-stops :
    (fuel c need : ℕ)
    → need ≤ 2 ^ 63
    → need ≤ c * 2 ^ fuel
    → c < size_max
    → (r : ℕ) × (grow_cap (suc fuel) c need ≡ some r)
      × (need ≤ r)
      × (r < size_max)
      × ((r ≡ c) ⊎ (r < 2 * need))
grow_cap-stops zero c need small enough fits =
    (c, grow_cap_stop zero c need (omega arith), omega arith, fits, inl refl)
grow_cap-stops (suc fuel) c need small enough fits = elim (dec_lt c need) [
  | no stop ↦ (c, grow_cap_stop (suc fuel) c need (omega arith), omega arith, fits, inl refl)
  | yes below ↦
      let (r, run, room, word, waste) =
        grow_cap-stops fuel (c * 2) need small
          (omega (arith, ap (λ (t : ℕ). c * t) (pow-suc 2 fuel))) (omega arith) in
      (
        r,
        grow_cap_go (suc fuel) c need below (omega arith) ∙ run,
        room,
        word,
        elim waste [ inl e ↦ inr (omega arith) | inr lt ↦ inr lt ],
      )
]

reserve_fits :
    (b : ByteBuf) (extra : ℕ)
    → b.len + extra < size_max
    → b.len + extra ≤ b.cap
    → byte_buf_reserve b extra ≡ some b
unfolding byte_buf_reserve
reserve_fits b extra word fits =
    let same : (b.len + extra) % size_max ≡ b.len + extra = omega arith in
    rw (same, le→leb (b.len + extra) b.cap fits) refl

reserve_grows :
    (b : ByteBuf) (extra c : ℕ)
    → b.len + extra < size_max
    → b.cap < b.len + extra
    → grow_cap 64 (if b.cap == 0 then 4096 else b.cap * 2 % size_max) (b.len + extra) ≡ some c
    → byte_buf_reserve b extra ≡ some (record b { cap = c })
unfolding byte_buf_reserve
reserve_grows b extra c word grows run =
    let same : (b.len + extra) % size_max ≡ b.len + extra = omega arith in
    let test : leb (b.len + extra) b.cap ≡ false = ground arith in rw (same, test, run) refl

-- What `byte_buf_reserve` leaves: the same bytes, room for `extra` more, and a capacity that grew
-- only if it had to, then to the least size or less than twice what is needed or the old one.
pub record Reserved (b : ByteBuf) (extra : ℕ) (r : ByteBuf) : Type 0 where
  pub same_bytes : r.stored ≡ b.stored
  pub same_len : r.len ≡ b.len
  pub room : b.len + extra ≤ r.cap
  pub word : r.cap < size_max
  pub waste : (r.cap ≡ b.cap) ⊎ (r.cap ≤ 4096 + 2 * (b.len + extra))

-- `byte_buf_reserve` ends for every total of at most 2^63 bytes: the bytes and the length stay,
-- there is room for the extra bytes, and a capacity that grew is at most 4096 plus twice the
-- total.
pub byte_buf_reserve-Reserved :
    (b : ByteBuf) (extra : ℕ)
    → b.len + extra ≤ 2 ^ 63
    → b.cap < size_max
    → (r : ByteBuf) × (byte_buf_reserve b extra ≡ some r) × Reserved b extra r
byte_buf_reserve-Reserved b extra small word =
    let need = b.len + extra in
    elim (dec_lt b.cap (b.len + extra)) [
      | no fits ↦ (
        b,
        reserve_fits b extra (omega arith) (omega arith),
        record {
          same_bytes = refl;
          same_len = refl;
          room = omega arith;
          word = word;
          waste = inl refl;
        },
      )
      | yes grows ↦
          let need = b.len + extra in
          let first = if b.cap == 0 then 4096 else b.cap * 2 % size_max in
          let bounds : (0 < first) × (first < size_max) × (first ≤ 4096 + 2 * need) =
            ground arith in
          let (c, run, room, cword, waste) =
            grow_cap-stops 63 first need small (omega arith) bounds.1 in
          (
            record b { cap = c },
            reserve_grows b extra c (omega arith) grows run,
            record {
              same_bytes = refl;
              same_len = refl;
              room = room;
              word = cword;
              waste = elim waste [ inl e ↦ inr (omega arith) | inr lt ↦ inr (omega arith) ];
            },
          )
    ]

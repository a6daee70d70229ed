-- ===== src/Bytes/Laws.antt =====
-- Round trips of words and strings, and when a read succeeds.
use native.Mathlib.Nat.{pow-suc}
use elfrc.Base.{
  ℕ, zero, suc, ◌+◌, ◌/◌, ◌^◌, ◌≤◌, ◌<◌, ◌≡◌, ◌↔◌, refl, ap, ◌∙◌, arith, List, [], ◌∷◌, ◌++◌, none,
  some, true, length, take, drop, All, take-append, drop-append, length-append,
}
use elfrc.Bytes.{le_bytes, le_value, read, c_string, string_at, with_nul, bytes_eq}

pub length-le_bytes : (w v : ℕ) → length (le_bytes w v) ≡ w
unfolding le_bytes
length-le_bytes zero v = refl
length-le_bytes (suc w) v = ap suc (length-le_bytes w (v / 256))

-- A word survives the trip through its bytes, if it fits.
pub le_value-le_bytes : (w v : ℕ) → v < 256 ^ w → le_value (le_bytes w v) ≡ v
unfolding le_value le_bytes
le_value-le_bytes zero v h = omega arith
le_value-le_bytes (suc w) v h =
    omega (arith, le_value-le_bytes w (v / 256) (omega (arith, pow-suc 256 w)))

-- What is decoded from `w` bytes fits `w` bytes.
pub le_value-lt : (bs : List ℕ) → All (λ b. b < 256) bs → le_value bs < 256 ^ length bs
unfolding le_value
le_value-lt [] h = omega arith
le_value-lt (b ∷ bs) (hb, hbs) = omega (arith, le_value-lt bs hbs, pow-suc 256 (length bs))

pub le_bytes-IsByte : (w v : ℕ) → All (λ b. b < 256) (le_bytes w v)
unfolding le_bytes
le_bytes-IsByte zero v = tt
le_bytes-IsByte (suc w) v = (omega arith, le_bytes-IsByte w (v / 256))

pub read-some :
    (mem : List ℕ) (off len : ℕ)
    → off + len ≤ length mem
    → read mem off len ≡ some (take len (drop off mem))
unfolding read
read-some mem off len h = ground arith

pub read-none : (mem : List ℕ) (off len : ℕ) → length mem < off + len → read mem off len ≡ none
unfolding read
read-none mem off len h = ground arith

-- A read behind `front` gives what was put there.
pub read-append :
    (front middle back : List ℕ) (off len : ℕ)
    → off ≡ length front
    → len ≡ length middle
    → read (front ++ (middle ++ back)) off len ≡ some middle
read-append front middle back off len e f =
    read-some (front ++ (middle ++ back)) off len
      (omega (arith, length-append front (middle ++ back), length-append middle back))
    ∙ ap some
        (ap (take len) (drop-append front (middle ++ back) off e) ∙ take-append middle back len f)

pub bytes_eq_iff : (a b : List ℕ) → (bytes_eq a b ≡ true) ↔ (a ≡ b)
unfolding bytes_eq
bytes_eq_iff [] [] = ((λ _. refl), (λ _. refl))
bytes_eq_iff [] (y ∷ ys) = ((λ e. cc), (λ e. cc))
bytes_eq_iff (x ∷ xs) [] = ((λ e. cc), (λ e. cc))
bytes_eq_iff (x ∷ xs) (y ∷ ys) =
    let ih = bytes_eq_iff xs ys in ((λ e. ground (arith, ih)), (λ e. ground (arith, ih)))

pub bytes_eq_refl : (a : List ℕ) → bytes_eq a a ≡ true
bytes_eq_refl a = (bytes_eq_iff a a).1 refl

-- A string without zero bytes is read back from memory, whatever follows it.
abbrev pub IsCString : List ℕ → Type 0
IsCString s = All (λ b. (0 < b) × (b < 256)) s

pub c_string-with_nul : (s rest : List ℕ) → IsCString s → c_string (with_nul s ++ rest) ≡ some s
unfolding c_string
c_string-with_nul [] rest h = refl
c_string-with_nul (b ∷ s) rest ((pos, lt), hs) = rw (c_string-with_nul s rest hs) (ground arith)

pub string_at-append :
    (front s back : List ℕ) (off : ℕ)
    → off ≡ length front
    → IsCString s
    → string_at (front ++ (with_nul s ++ back)) off ≡ some s
unfolding string_at
string_at-append front s back off e h =
    rw (drop-append front (with_nul s ++ back) off e) (c_string-with_nul s back h)

-- ===== src/Reader/Metadata/Sound.antt =====
-- The metadata calls read nothing outside of the memory, and return strings that lie inside.
use elfrc.Base.{
  ℕ, zero, suc, ◌+◌, ◌%◌, ◌^◌, ◌≤◌, ◌<◌, ◌≡◌, ◌≢◌, refl, arith, subst, ap, sym, ◌∙◌, Option, none,
  some, Bool, true, false, not, leb, ◌==◌, if◌then◌else◌, length,
}
use elfrc.Bytes.Laws.{read-some}
use elfrc.Reader.Container.{Resource, Container, in_bounds}
use elfrc.Reader.Metadata.{
  Answer, found, failed, fault, ◌>>=◌, require, read_u32, read_string, read_pair, nth_pair,
  erf_metadata_get,
}

>>=-eq-found {ℓ κ} :
    {A : Type ℓ} {B : Type κ} (m : Answer A) (f : A → Answer B) {b : B}
    → (m >>= f) ≡ found b
    → (a : A) × (m ≡ found a) × (f a ≡ found b)
>>=-eq-found (found a) f h = (a, refl, h)
>>=-eq-found failed f h = cc
>>=-eq-found fault f h = cc

>>=-ne-fault {ℓ κ} :
    {A : Type ℓ} {B : Type κ} (m : Answer A) (f : A → Answer B)
    → m ≢ fault
    → ((a : A) → f a ≢ fault)
    → (m >>= f) ≢ fault
>>=-ne-fault (found a) f safe next = next a
>>=-ne-fault failed f safe next = λ e. cc
>>=-ne-fault fault f safe next = λ e. safe refl

if-ne-fault {ℓ} :
    {A : Type ℓ} (t : Bool) {m : Answer A} → m ≢ fault → (if t then failed else m) ≢ fault
if-ne-fault true safe = λ e. cc
if-ne-fault false safe = safe

require-ne-fault : (t : Bool) → require t ≢ fault
require-ne-fault true e = cc
require-ne-fault false e = cc

if-found {ℓ} :
    {A : Type ℓ} (t : Bool) {m : Answer A} {a : A}
    → (if t then failed else m) ≡ found a
    → m ≡ found a
if-found true e = cc
if-found false e = e

found_injective {ℓ} : {A : Type ℓ} (p q : A) → found p ≡ found q → p ≡ q
found_injective p q e = cc

pair_lem :
    (off : ℕ) (k v : ℕ × ℕ) (t : ℕ × ℕ × ℕ) (size : ℕ)
    → (off + 4 ≡ k.0) × (k.0 < k.1) × (k.1 ≤ size)
    → (k.1 + 4 ≡ v.0) × (v.0 < v.1) × (v.1 ≤ size)
    → (k.0, v.0, v.1) ≡ t
    → (off < t.0) × (t.0 < t.1) × (t.1 < t.2) × (t.2 ≤ size)
pair_lem off k v t size (a, b, d) (x, y, z) e =
    subst (λ t. (off < t.0) × (t.0 < t.1) × (t.1 < t.2) × (t.2 ≤ size)) e
      (omega arith, omega arith, y, z)

last_pair_lem :
    (off : ℕ) (p : ℕ × ℕ × ℕ) (q : ℕ × ℕ) (size : ℕ)
    → (off < p.0) × (p.0 < p.1) × (p.1 < p.2) × (p.2 ≤ size)
    → (p.0, p.1) ≡ q
    → (off < q.0) × (q.0 < q.1) × (q.1 < size)
last_pair_lem off p q size (a, b, d, f) e =
    subst (λ q. (off < q.0) × (q.0 < q.1) × (q.1 < size)) e (a, b, omega arith)

answer_0 : (p q : ℕ × ℕ) → found p ≡ found q → p.0 ≡ q.0
answer_0 p q e = cc

answer_1 : (p q : ℕ × ℕ) → found p ≡ found q → p.1 ≡ q.1
answer_1 p q e = cc

require-found : (t : Bool) {u : Unit {0}} → require t ≡ found u → t ≡ true
require-found true e = refl
require-found false e = cc

-- An offset and the range behind it, both inside: nothing wraps.
string_lem :
    (size off len text next : ℕ)
    → off + 4 ≤ size
    → size < 2 ^ 64
    → in_bounds size ((off + 4) % 2 ^ 64) (len + 1) ≡ true
    → (off + 4) % 2 ^ 64 ≡ text
    → ((off + 4) % 2 ^ 64 + (len + 1)) % 2 ^ 64 ≡ next
    → (off + 4 ≡ text) × (text < next) × (next ≤ size)
unfolding in_bounds
string_lem size off len text next inside word tested at behind = ground arith

module _ (c : Container) (fits : c.size ≤ length c.base) (word : c.size < 2 ^ 64) where
  read_u32-ne-fault : (off : ℕ) → read_u32 c off ≢ fault
  unfolding read_u32 in_bounds
  read_u32-ne-fault off e = ground (arith, read-some c.base off 4)

  read_u32-found : (off v : ℕ) → read_u32 c off ≡ found v → off + 4 ≤ c.size
  unfolding read_u32 in_bounds
  read_u32-found off v e = ground arith

  read_string-ne-fault : (off : ℕ) → read_string c off ≢ fault
  unfolding read_string
  read_string-ne-fault off e = ground (arith, read_u32-ne-fault off)

  -- A string that is returned lies inside, its zero byte too, behind the offset that was read.
  read_string-found :
      (off text next : ℕ)
      → read_string c off ≡ found (text, next)
      → (off + 4 ≡ text) × (text < next) × (next ≤ c.size)
  unfolding read_string
  read_string-found off text next e =
      let (len, got, after) = >>=-eq-found (read_u32 c off) _ e in
      let (u, tested, pair) =
        >>=-eq-found (require (in_bounds c.size ((off + 4) % 2 ^ 64) (len + 1))) _ after in
      string_lem c.size off len text next (read_u32-found off len got) word (require-found _ tested)
        (answer_0 _ _ pair) (answer_1 _ _ pair)

  read_pair-ne-fault : (off : ℕ) → read_pair c off ≢ fault
  unfolding read_pair
  read_pair-ne-fault off =
      >>=-ne-fault (read_string c off) _ (read_string-ne-fault off)
        (λ k. >>=-ne-fault (read_string c k.1) _ (read_string-ne-fault k.1) (λ v e. cc))

  nth_pair-ne-fault : (index off : ℕ) → nth_pair c index off ≢ fault
  unfolding nth_pair
  nth_pair-ne-fault zero off = >>=-ne-fault (read_pair c off) _ (read_pair-ne-fault off) (λ p e. cc)
  nth_pair-ne-fault (suc index) off =
      >>=-ne-fault (read_pair c off) _ (read_pair-ne-fault off) (λ p. nth_pair-ne-fault index p.2)

  -- If the memory of a container is at least as long as its size, a 64-bit word, then
  -- `erf_metadata_get` reads nothing outside of it, whatever the bytes, the resource and the index
  -- are.
  pub erf_metadata_get-ne-fault :
      (res : Option Resource) (index : Option ℕ) → erf_metadata_get (some c) res index ≢ fault
  unfolding erf_metadata_get
  erf_metadata_get-ne-fault none index = λ e. cc
  erf_metadata_get-ne-fault (some r) none = λ e. cc
  erf_metadata_get-ne-fault (some r) (some i) = if-ne-fault (r.metadata_offset == 0) (
      >>=-ne-fault (read_u32 c r.metadata_offset) _ (read_u32-ne-fault r.metadata_offset) (λ count.
        >>=-ne-fault (require (not (leb count i))) _ (require-ne-fault _)
          (λ u. nth_pair-ne-fault i ((r.metadata_offset + 4) % 2 ^ 64))))

  -- What it answers is a pair of strings of the block, one behind the other, that lie inside.
  read_pair-found :
      (off key value next : ℕ)
      → read_pair c off ≡ found (key, value, next)
      → (off < key) × (key < value) × (value < next) × (next ≤ c.size)
  unfolding read_pair
  read_pair-found off key value next e =
      let (k, got_k, after) = >>=-eq-found (read_string c off) _ e in
      let (v, got_v, triple) = >>=-eq-found (read_string c k.1) _ after in
      pair_lem off k v (key, value, next) c.size (read_string-found off k.0 k.1 got_k)
        (read_string-found k.1 v.0 v.1 got_v) (found_injective _ _ triple)

  nth_pair-found :
      (index off key value : ℕ)
      → nth_pair c index off ≡ found (key, value)
      → (off < key) × (key < value) × (value < c.size)
  unfolding nth_pair
  nth_pair-found zero off key value e =
      let (p, got, pair) = >>=-eq-found (read_pair c off) _ e in
      last_pair_lem off p (key, value) c.size (read_pair-found off p.0 p.1 p.2 got)
        (found_injective _ _ pair)
  nth_pair-found (suc index) off key value e =
      let (p, got, rest) = >>=-eq-found (read_pair c off) _ e in
      let (low, mid, high) = nth_pair-found index p.2 key value rest in
      let (a, b, d, _) = read_pair-found off p.0 p.1 p.2 got in (omega arith, mid, high)

  -- If the memory of a container is at least as long as its size, a 64-bit word, then the strings
  -- that `erf_metadata_get` answers with start behind the count of the resource's block, the value
  -- behind the key, and both inside the memory.
  pub erf_metadata_get-found :
      (r : Resource) (index key value : ℕ)
      → erf_metadata_get (some c) (some r) (some index) ≡ found (key, value)
      → (r.metadata_offset + 4 < key) × (key < value) × (value < c.size)
  unfolding erf_metadata_get
  erf_metadata_get-found r index key value e =
      let after = if-found (r.metadata_offset == 0) e in
      let (count, got, guarded) = >>=-eq-found (read_u32 c r.metadata_offset) _ after in
      let (u, tested, pair) = >>=-eq-found (require (not (leb count index))) _ guarded in
      let inside = read_u32-found r.metadata_offset count got in
      let at : (r.metadata_offset + 4) % 2 ^ 64 ≡ r.metadata_offset + 4 =
        omega (arith, inside, word) in
      nth_pair-found index (r.metadata_offset + 4) key value
        (ap (λ n. nth_pair c index n) (sym at) ∙ pair)

-- ===== src/Reader/Find.antt =====
-- The lookups of erf_reader.c. A resource is returned as its index in `resources`.
pub mod Names
pub mod Sound
pub mod Ids
use elfrc.Base.{
  ℕ, zero, suc, ◌+◌, ◌*◌, ◌%◌, ◌^◌, List, [], ◌∷◌, Option, none, some, Bool, true, false, ◌&&◌, ltb,
  leb, ◌==◌, if◌then◌else◌, bit_xor, drop, get_elem?,
}
use elfrc.Bytes.{read}
use elfrc.Format.{bucket_of, erf_hash_empty, sizeof_bucket}
use elfrc.Reader.Outcome.{ErfError, not_found, invalid_argument, Outcome, ok, err, ◌>>=◌, load}
use elfrc.Reader.Container.{Resource, Container}

-- `strcmp(p, name) == 0`, where `p` points at the bytes `mem`. `strcmp` stops at the first
-- difference, and leaves the memory only if the bytes agree up to its end.
unfoldable pub strcmp_eq : List ℕ → List ℕ → Option Bool
strcmp_eq [] name = none
strcmp_eq (b ∷ mem) [] = some (b == 0)
strcmp_eq (b ∷ mem) (x ∷ name) =
    let rest = strcmp_eq mem name in if b == x then rest else some false

unfoldable pub name_matches : Container → Resource → List ℕ → Outcome Bool
name_matches c r name = load (strcmp_eq (drop r.name c.base) name)

-- The hash of the loop `for (p = name; *p; p++)`, from the value `h` on.
unfoldable pub name_hash : ℕ → List ℕ → ℕ
name_hash h [] = h
name_hash h (b ∷ name) = name_hash (bit_xor h b * 0x100000001b3 % 2 ^ 64) name

indexed_matches : Container → List ℕ → ℕ → Outcome Bool
indexed_matches c name index = do r ← load (get_elem? c.resources index); name_matches c r name

-- The bucket holds the hash and a directory index in range, whose name is the one sought.
unfoldable pub bucket_matches : Container → List ℕ → ℕ → ℕ → ℕ → Outcome Bool
unfolding indexed_matches
bucket_matches c name h hash index =
    if hash == h && ltb index c.resource_count then indexed_matches c name index else ok false

-- `while (probed < hash_bucket_count)`, with `left` rounds left.
unfoldable pub probe : Container → List ℕ → ℕ → ℕ → ℕ → Outcome ℕ
probe c name h slot zero = err not_found
probe c name h slot (suc left) = do
  raw ← load (read c.base (c.hash_buckets + slot * sizeof_bucket) sizeof_bucket)
  let b = bucket_of raw
  let rest = probe c name h ((slot + 1) % c.hash_bucket_count) left
  if b.directory_index == erf_hash_empty then err not_found else do
    hit ← bucket_matches c name h b.hash b.directory_index
    if hit then ok b.directory_index else rest

-- The loop over the directory where there is no hash table; `i` is the index of the list's head.
unfoldable pub scan_names : Container → List ℕ → ℕ → List Resource → Outcome ℕ
scan_names c name i [] = err not_found
scan_names c name i (r ∷ rs) = do
  let rest = scan_names c name (i + 1) rs
  hit ← name_matches c r name
  if hit then ok i else rest

-- The lookup through the hash table, from the name's own slot on.
unfoldable pub find_hashed : Container → List ℕ → Outcome ℕ
find_hashed c name =
    let h = name_hash 0xcbf29ce484222325 name in
    probe c name h (h % c.hash_bucket_count) c.hash_bucket_count

unfoldable pub find_name : Container → List ℕ → Outcome ℕ
find_name c name =
    if c.has_hash_table && ltb 0 c.hash_bucket_count
    then find_hashed c name
    else scan_names c name 0 c.resources

-- `none` is a NULL pointer.
unfoldable pub erf_find_in : Option Container → Option (List ℕ) → Outcome ℕ
erf_find_in none name = err invalid_argument
erf_find_in (some c) none = err invalid_argument
erf_find_in (some c) (some name) = find_name c name

unfoldable pub scan_ids : ℕ → ℕ → List Resource → Outcome ℕ
scan_ids id i [] = err not_found
scan_ids id i (r ∷ rs) = let rest = scan_ids id (i + 1) rs in if r.id == id then ok i else rest

unfoldable pub erf_find_id_in : Option Container → ℕ → Outcome ℕ
erf_find_id_in none id = err invalid_argument
erf_find_id_in (some c) id = scan_ids id 0 c.resources

unfoldable pub erf_resource_count : Option Container → ℕ
erf_resource_count none = 0
erf_resource_count (some c) = c.resource_count

-- On success this one leaves the last error alone, so it is no `Outcome`: `none` is the NULL that
-- comes with ERF_ERR_INVALID_ARGUMENT.
unfoldable pub erf_resource_at : Option Container → ℕ → Option Resource
erf_resource_at none index = none
erf_resource_at (some c) index =
    if leb c.resource_count index then none else get_elem? c.resources index

-- The data pointer and the size.
unfoldable pub erf_resource_data_in : Option Container → Option (List ℕ) → Outcome (ℕ × ℕ)
erf_resource_data_in none name = err invalid_argument
erf_resource_data_in (some c) name = do
  i ← erf_find_in (some c) name
  r ← load (get_elem? c.resources i)
  ok (r.bytes, r.size)

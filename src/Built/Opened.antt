-- ===== src/Built/Opened.antt =====
-- What the handle of a built container holds.
use elfrc.Base.{
  ℕ, zero, suc, ◌+◌, ◌^◌, ◌≤◌, ◌<◌, ◌≡◌, refl, sym, ap, subst, ◌∙◌, arith, List, [], ◌∷◌, some,
  true, false, Bool, length, get_elem?, bit_and, bit_or, if◌then◌else◌, ◌==◌,
}
use Prim.Native.Nat.add
use elfrc.Bytes.{read, string_at}
use elfrc.Bytes.Sits.{read-Sits, string_at-Sits}
use elfrc.Format.{Header, HashBucket, sizeof_header, sizeof_hash_header, DirectoryEntry}
use elfrc.Manifest.{MetadataKv, Manifest}
use elfrc.Manifest
use elfrc.Container.Sections.{Files, loaded, load_file, any_metadata}
use elfrc.Container.Build.{Layout, entry_for, header_flags, header_for, localized}
use elfrc.Container.Written.Metadata.{HasBlock, IsBlock, block_bytes}
use elfrc.Container.Written.Entries.{IsBuildable}
use elfrc.Container.Written.Finished.{signed_header, IsFinished}
use elfrc.Container.Written.Laid.{directory_end, IsLaidOut}
use elfrc.Reader.Outcome.{ok}
use elfrc.Reader.Container.{Resource, Container}
use elfrc.Reader.Open.{has_hash, resource_of, erf_open_memory}
use elfrc.Reader.Open.Entries.{stored_entry, Loaded}
use elfrc.Reader.Open.Sound.{
  IsOpened, stored_header, erf_open_memory-IsOpened, erf_open_memory_accepts,
}
use elfrc.Reader.Open.Checks.{stored_bucket_count}
use elfrc.Built.Accepted.{
  header_read, entry_place, stored_entry_lem, bucket_count_read, finished-Acceptable,
}

-- The reader's resource is the manifest's: its numbers, its name, and its file's bytes.
pub record IsReadBack (files : Files) (mem : List ℕ) (r : Manifest.Resource) (x : Resource)
    : Type 0 where
  pub id : x.id ≡ r.final_id
  pub type : x.type ≡ r.type
  pub language : x.language ≡ r.language
  pub flags : x.flags ≡ r.flags
  pub timestamp : x.timestamp ≡ 0
  pub name : string_at mem x.name ≡ some r.name
  pub content : List ℕ
  pub from_file : load_file files r ≡ loaded content
  pub bytes : read mem x.bytes x.size ≡ some content
  pub block : HasBlock sizeof_header mem r.metadata x.metadata_offset

-- The handle holds the container's bytes, one resource for each of the manifest's, in order, and
-- the place of the hash table `t`.
pub record IsHandle (files : Files) (rs : List Manifest.Resource) (t : List HashBucket) (l : Layout)
    (mem : List ℕ) (c : Container) : Type 0 where
  pub base : c.base ≡ mem
  pub size : c.size ≡ length mem
  pub header : c.header ≡ signed_header rs l
  pub count : c.resource_count ≡ length rs
  pub stored_count : length c.resources ≡ length rs
  pub each :
      (j : ℕ) (r : Manifest.Resource)
      → get_elem? rs j ≡ some r
      → (x : Resource) × (get_elem? c.resources j ≡ some x) × IsReadBack files mem r x
  pub hashed : c.has_hash_table ≡ true
  pub bucket_count : c.hash_bucket_count ≡ length t
  pub buckets : c.hash_buckets ≡ l.hash_table_offset + sizeof_hash_header

-- The flag of the hash table is set.
flag_set : (rs : List Manifest.Resource) → (bit_and (header_flags rs) 4 == 0) ≡ false
unfolding header_flags
flag_set rs = by_cases (any_metadata rs) (localized rs)
  where
    by_cases :
        (m k : Bool)
        → (bit_and (let g = if m then bit_or 4 2 else 4 in if k then bit_or g 1 else g) 4 == 0)
          ≡ false
    by_cases true true = refl
    by_cases true false = refl
    by_cases false true = refl
    by_cases false false = refl

module _ (files : Files) (t : List HashBucket) (rs : List Manifest.Resource) (l : Layout)
    (laid : IsLaidOut files t rs l) (small : length l.buf < 2 ^ 32) (few : length rs ≤ 2 ^ 30)
    (fits : length t < 2 ^ 32)
    (good : (j : ℕ) (r : Manifest.Resource) → get_elem? rs j ≡ some r → IsBuildable r)
    (mem : List ℕ) (f : IsFinished rs l mem) where
  abbrev h : Header
  h = signed_header rs l

  table_there : has_hash h ≡ true
  unfolding has_hash header_for
  table_there = ground (arith, flag_set rs, laid.table.behind)

  kept-IsBlock :
      {ms : List MetadataKv} {off : ℕ}
      → IsBlock (directory_end rs) l.buf ms off
      → IsBlock sizeof_header mem ms off
  kept-IsBlock {ms} {off} b = record {
    aligned = b.aligned;
    stands = record {
      behind = omega (arith, b.stands.behind);
      sits = f.kept off (block_bytes ms) b.stands;
    };
  }

  entry-IsReadBack :
      (j : ℕ) (r : Manifest.Resource)
      → get_elem? rs j ≡ some r
      → IsReadBack files mem r (resource_of (stored_entry mem h j))
  unfolding resource_of entry_for
  entry-IsReadBack j r e =
      let p = entry_place files t rs l laid small few fits good mem f j r e in
      let b = good j r e in
      let s = p.stored in
      subst (λ (x : DirectoryEntry). IsReadBack files mem r (resource_of x))
        (sym (stored_entry_lem files t rs l laid small few fits good mem f j r e))
        (record {
          id = refl;
          type = refl;
          language = refl;
          flags = refl;
          timestamp = refl;
          name = string_at-Sits r.name b.name (f.kept p.name_at _ p.named);
          content = s.content;
          from_file = s.from_file;
          block = λ some_ms few_ms kvs. kept-IsBlock (p.block some_ms few_ms kvs);
          bytes = read-Sits s.content s.size (f.kept p.slot.offset s.content s.stands);
        })

  element-lt : {A : Type 0} (xs : List A) (j : ℕ) {x : A} → get_elem? xs j ≡ some x → j < length xs
  element-lt [] j e = cc
  element-lt (y ∷ ys) zero e = omega arith
  element-lt (y ∷ ys) (suc j) e = omega (arith, element-lt ys j e)

  opened-IsHandle : (c : Container) → IsOpened mem (length mem) c → IsHandle files rs t l mem c
  unfolding header_for
  opened-IsHandle c o =
      let same = header_read files t rs l laid small few fits good mem f in
      let all : Loaded mem h h.resource_count 0 c.resources =
        subst (λ (g : Header). Loaded mem g g.resource_count 0 c.resources) same o.loaded in
      let flag : has_hash (stored_header mem) ≡ true = ap has_hash same ∙ table_there in
      let (count, at) = o.table flag in
      record {
        base = o.base;
        size = o.memory;
        header = o.header ∙ same;
        count = omega (arith, o.count, ap (λ (g : Header). g.resource_count) same);
        stored_count = omega (arith, all.count);
        each = λ j r e. (
          resource_of (stored_entry mem h j),
          all.each j (omega (arith, element-lt rs j e))
              ∙ ap (λ (k : ℕ). some (resource_of (stored_entry mem h k))) (add.zero j),
          entry-IsReadBack j r e,
        );
        hashed = o.has_table ∙ flag;
        bucket_count =
            count
            ∙ ap (stored_bucket_count mem) same
            ∙ bucket_count_read files t rs l laid small few fits good mem f;
        buckets = at ∙ ap (λ (g : Header). g.hash_table_offset + sizeof_hash_header) same;
      }

  pub finished-IsHandle :
      (c : Container) × (erf_open_memory (some mem) (length mem) ≡ ok c)
      × IsHandle files rs t l mem c
  finished-IsHandle =
      let word : length mem < 2 ^ 64 = omega (arith, f.whole) in
      let (c, opens) =
        erf_open_memory_accepts mem (length mem) (omega arith) word
          (finished-Acceptable files t rs l laid small few fits good mem f) in
      (
        c,
        opens,
        opened-IsHandle c (erf_open_memory-IsOpened mem (length mem) (omega arith) word opens).1,
      )

-- ===== src/Reader/Open/Entries.antt =====
-- The loop of `erf_open_memory` over the directory.
use elfrc.Base.{
  ℕ, zero, suc, ◌+◌, ◌*◌, ◌≤◌, ◌<◌, ◌≡◌, ◌≢◌, refl, sym, ap, subst, ◌∙◌, arith, List, [], ◌∷◌, some,
  length, All, All-get_elem?, take, drop, get_elem?,
}
use native.Mathlib.Nat.{add-zero}
use Prim.Native.Nat.add
use elfrc.Bytes.Laws.{read-some}
use elfrc.Format.{Header, DirectoryEntry, entry_of, sizeof_entry}
use elfrc.Reader.Outcome.{Outcome, ok, err, fault, ◌>>=◌}
use elfrc.Reader.Container.{Resource, in_bounds}
use elfrc.Reader.Open.{read_entry, resource_of, open_resource, open_resources}
use elfrc.Reader.Open.Checks.{Checked}

-- The entry that stands at index `i` of the directory.
abbrev pub stored_entry : List ℕ → Header → ℕ → DirectoryEntry
stored_entry b h i =
    entry_of (take sizeof_entry (drop (h.directory_offset + i * h.directory_entry_size) b))

-- The name's first byte and all of the data lie inside.
abbrev pub Within : ℕ → Resource → Type 0
Within total r = (r.name + 1 ≤ total) × (r.bytes + r.size ≤ total)

cons_inversion :
    {A : Type 0} (m : Outcome A) (n : Outcome (List A)) {l : List A}
    → (do r ← m; rs ← n; ok (r ∷ rs)) ≡ ok l
    → (r : A) × (rs : List A) × (m ≡ ok r) × (n ≡ ok rs) × (r ∷ rs ≡ l)
cons_inversion (ok r) (ok rs) e = (r, rs, refl, refl, cc)
cons_inversion (ok r) (err x) e = cc
cons_inversion (ok r) fault e = cc
cons_inversion (err x) n e = cc
cons_inversion fault n e = cc

cons_ok :
    (b : List ℕ) (h : Header) (left i : ℕ) {r : Resource} {rs : List Resource}
    → open_resource b h i ≡ ok r
    → open_resources b h left (i + 1) ≡ ok rs
    → open_resources b h (suc left) i ≡ ok (r ∷ rs)
unfolding open_resources
cons_ok b h left i e f = rw (e, f) refl

-- `rs` are the resources of entries `i` to `i + left`, in order and in bounds.
pub record Loaded (b : List ℕ) (h : Header) (left i : ℕ) (rs : List Resource) : Type 0 where
  pub count : length rs ≡ left
  pub within : All (Within h.total_size) rs
  pub each : (j : ℕ) → j < left → get_elem? rs j ≡ some (resource_of (stored_entry b h (i + j)))

pub Loaded-Within :
    (b : List ℕ) (h : Header) (left : ℕ) {rs : List Resource} (j : ℕ)
    → Loaded b h left 0 rs
    → j < left
    → Within h.total_size (resource_of (stored_entry b h j))
Loaded-Within b h left {rs} j l lt =
    All-get_elem? (Within h.total_size) rs j l.within
      (l.each j lt ∙ ap (λ (k : ℕ). some (resource_of (stored_entry b h k))) (add.zero j))

Loaded-nil : (b : List ℕ) (h : Header) (i : ℕ) → Loaded b h 0 i []
Loaded-nil b h i = record { count = refl; within = tt; each = λ j lt. absurd (omega arith) }

Loaded-cons :
    (b : List ℕ) (h : Header) (left i : ℕ) (r : Resource) (rs : List Resource)
    → r ≡ resource_of (stored_entry b h i)
    → Within h.total_size r
    → Loaded b h left (i + 1) rs
    → Loaded b h (suc left) i (r ∷ rs)
Loaded-cons b h left i r rs e w l = record {
  count = ap suc l.count;
  within = (w, l.within);
  each = each;
}
  where
    each :
        (j : ℕ)
        → j < suc left
        → get_elem? (r ∷ rs) j ≡ some (resource_of (stored_entry b h (i + j)))
    each zero lt = rw add-zero (ap some e)
    each (suc j) lt =
        let shift : i + suc j ≡ i + 1 + j = omega arith in
        l.each j (omega arith) ∙ ap (λ (k : ℕ). some (resource_of (stored_entry b h k))) (sym shift)

stride_within : (i n s : ℕ) → i < n → i * s + s ≤ n * s
stride_within i n s h = grind arith

module _ (b : List ℕ) (h : Header) {size : ℕ} (c : Checked h size) (fits : size ≤ length b) where
  read_entry_lem : (i : ℕ) → i < h.resource_count → read_entry b h i ≡ ok (stored_entry b h i)
  unfolding read_entry
  read_entry_lem i lt = ground (
    arith,
    stride_within i h.resource_count h.directory_entry_size lt,
    c.directory,
    c.total,
    c.stride,
    read-some b (h.directory_offset + i * h.directory_entry_size) sizeof_entry,
    read-some b (h.directory_offset + i * h.directory_entry_size) h.directory_entry_size,
  )

  -- A round that passes returns the fields of the entry that stands at its index, in bounds.
  open_resource-ok :
      (i : ℕ) (r : Resource)
      → i < h.resource_count
      → open_resource b h i ≡ ok r
      → (r ≡ resource_of (stored_entry b h i)) × Within h.total_size r
  unfolding open_resource resource_of in_bounds
  open_resource-ok i r lt e = let e' = rw (read_entry_lem i lt) at e in (ground arith, ground arith)

  open_resource-ne-fault : (i : ℕ) → i < h.resource_count → open_resource b h i ≢ fault
  unfolding open_resource
  open_resource-ne-fault i lt e = let e' = rw (read_entry_lem i lt) at e in ground arith

  pub open_resources-ne-fault :
      (left i : ℕ) → i + left ≤ h.resource_count → open_resources b h left i ≢ fault
  unfolding open_resources
  open_resources-ne-fault zero i lt e = cc
  open_resources-ne-fault (suc left) i lt e = ground (
    arith,
    open_resource-ne-fault i (omega arith),
    open_resources-ne-fault left (i + 1) (omega arith),
  )

  open_resource-Within :
      (i : ℕ)
      → i < h.resource_count
      → Within h.total_size (resource_of (stored_entry b h i))
      → open_resource b h i ≡ ok (resource_of (stored_entry b h i))
  unfolding open_resource resource_of in_bounds
  open_resource-Within i lt w = rw (read_entry_lem i lt) (ground arith)

  pub open_resources-Loaded :
      (left i : ℕ) {rs : List Resource}
      → i + left ≤ h.resource_count
      → open_resources b h left i ≡ ok rs
      → Loaded b h left i rs
  unfolding open_resources
  open_resources-Loaded zero i lt e = subst (Loaded b h 0 i) (cc) (Loaded-nil b h i)
  open_resources-Loaded (suc left) i lt e =
      let (r, rs, first, rest, same) =
        cons_inversion (open_resource b h i) (open_resources b h left (i + 1)) e in
      let (entry, w) = open_resource-ok i r (omega arith) first in
      subst (Loaded b h (suc left) i) same (
        Loaded-cons b h left i r rs entry w (open_resources-Loaded left (i + 1) (omega arith) rest))

  -- Where every entry is in bounds, the loop passes.
  pub open_resources-total :
      (left i : ℕ)
      → i + left ≤ h.resource_count
      → ((j : ℕ) → i ≤ j → j < i + left → Within h.total_size (resource_of (stored_entry b h j)))
      → (rs : List Resource) × (open_resources b h left i ≡ ok rs)
  open_resources-total zero i lt all = ([], unfold open_resources in refl)
  open_resources-total (suc left) i lt all =
      let (rs, rest) =
        open_resources-total left (i + 1) (omega arith)
          (λ j lo hi. all j (omega arith) (omega arith)) in
      (
        resource_of (stored_entry b h i) ∷ rs,
        cons_ok b h left i
            (open_resource-Within i (omega arith) (all i (omega arith) (omega arith))) rest,
      )

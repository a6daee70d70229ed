-- ===== src/Container/Written/Strings.antt =====
-- The string table: every name stands at the offset that is kept for its resource.
use elfrc.Base.{
  ℕ, ◌%◌, ◌^◌, ◌≤◌, ◌<◌, ◌≡◌, refl, sym, ap, subst, ◌∙◌, arith, List, [], ◌∷◌, ◌++◌, Option, none,
  some, Bool-cases, inl, inr, All, length, length-append, append-nil, append_assoc,
}
use elfrc.Bytes.{with_nul, bytes_eq}
use elfrc.Bytes.Laws.{bytes_eq_iff}
use elfrc.Bytes.Sits.{Sits, Sits-behind, Sits-append}
use elfrc.Manifest.{Resource}
use elfrc.Container.Sections.{
  StringEntry, find_string, Interned, string_offset_of, intern_new, string_table_intern,
  intern_names,
}

-- A buffer that was only appended to.
pub record Grows (buf buf' : List ℕ) : Type 0 where
  pub more : List ℕ
  pub whole : buf' ≡ buf ++ more

pub Grows-refl : (buf : List ℕ) → Grows buf buf
Grows-refl buf = record { more = []; whole = sym (append-nil buf) }

pub Grows-append : (buf bytes : List ℕ) → Grows buf (buf ++ bytes)
Grows-append buf bytes = record { more = bytes; whole = refl }

pub Grows-trans : {a b c : List ℕ} → Grows a b → Grows b c → Grows a c
Grows-trans {a} f g = record {
  more = f.more ++ g.more;
  whole = g.whole ∙ ap (λ x. x ++ g.more) f.whole ∙ append_assoc a f.more g.more;
}

pub Grows-le : {a b : List ℕ} → Grows a b → length a ≤ length b
Grows-le {a} g = omega (arith, ap length g.whole, length-append a g.more)

pub Sits-Grows :
    {buf buf' : List ℕ} {off : ℕ} {bytes : List ℕ}
    → Grows buf buf'
    → Sits buf off bytes
    → Sits buf' off bytes
Sits-Grows {off = off} {bytes = bytes} g s =
    subst (λ m. Sits m off bytes) (sym g.whole) (Sits-append g.more s)

-- The bytes stand in the buffer, and not before `low`.
pub record Stands (low : ℕ) (buf : List ℕ) (off : ℕ) (bytes : List ℕ) : Type 0 where
  pub behind : low ≤ off
  pub sits : Sits buf off bytes

pub Stands-Grows :
    {low off : ℕ} {buf buf' bytes : List ℕ}
    → Grows buf buf'
    → Stands low buf off bytes
    → Stands low buf' off bytes
Stands-Grows g s = record { behind = s.behind; sits = Sits-Grows g s.sits }

-- What is appended stands at the end.
pub Stands-end :
    {low : ℕ} (buf bytes : List ℕ) → low ≤ length buf → Stands low (buf ++ bytes) (length buf) bytes
Stands-end buf bytes le = record {
  behind = le;
  sits =
      subst (λ m. Sits m (length buf) bytes) (ap (λ m. buf ++ m) (append-nil bytes))
        (Sits-behind buf bytes []);
}

module _ (low : ℕ) where
  -- Every entry of the table stands where it says.
  abbrev IsTable : List ℕ → List StringEntry → Type 0
  IsTable buf st = All (λ e. Stands low buf e.offset (with_nul e.name)) st

  IsTable-Grows :
      (buf buf' : List ℕ) (st : List StringEntry)
      → Grows buf buf'
      → IsTable buf st
      → IsTable buf' st
  IsTable-Grows buf buf' [] g t = tt
  IsTable-Grows buf buf' (e ∷ st) g (s, t) = (Stands-Grows g s, IsTable-Grows buf buf' st g t)

  IsTable-append :
      (buf : List ℕ) (st : List StringEntry) (e : StringEntry)
      → IsTable buf st
      → Stands low buf e.offset (with_nul e.name)
      → IsTable buf (st ++ (e ∷ []))
  IsTable-append buf [] e t s = (s, tt)
  IsTable-append buf (x ∷ st) e (h, t) s = (h, IsTable-append buf st e t s)

  find_string-Stands :
      (buf name : List ℕ) (st : List StringEntry) {off : ℕ}
      → IsTable buf st
      → find_string name st ≡ some off
      → Stands low buf off (with_nul name)
  unfolding find_string
  find_string-Stands buf name [] t e = cc
  find_string-Stands buf name (x ∷ st) {off} (s, t) e = elim (Bool-cases (bytes_eq x.name name)) [
    | inl same ↦
        let here : x.offset ≡ off = ground (arith, same) in
        subst (λ n. Stands low buf off (with_nul n)) ((bytes_eq_iff x.name name).0 same)
          (subst (λ k. Stands low buf k (with_nul x.name)) here s)
    | inr other ↦ find_string-Stands buf name st t (ground (arith, other))
  ]

  -- What interning one name leaves.
  record IsInterned (buf name : List ℕ) (i : Interned) : Type 0 where
    grows : Grows buf i.buf
    table : IsTable i.buf i.table
    sits : Stands low i.buf i.offset (with_nul name)

  -- The offset is not cut.
  offset_whole : (base len : ℕ) → base ≤ len → len < 2 ^ 32 → string_offset_of base len ≡ len
  unfolding string_offset_of
  offset_whole base len le small = omega arith

  intern_new-IsInterned :
      (st : List StringEntry) (buf : List ℕ) (base : ℕ) (name : List ℕ)
      → base ≤ length buf
      → low ≤ length buf
      → length buf < 2 ^ 32
      → IsTable buf st
      → IsInterned buf name (intern_new st buf base name)
  intern_new-IsInterned st buf base name le high small t =
      let at = offset_whole base (length buf) le small in
      let buf' = buf ++ with_nul name in
      let here : Stands low buf' (string_offset_of base (length buf)) (with_nul name) =
        subst (λ (k : ℕ). Stands low buf' k (with_nul name)) (sym at)
          (Stands-end buf (with_nul name) high) in
      record {
        grows = Grows-append buf (with_nul name);
        table =
            IsTable-append buf' st _
              (IsTable-Grows buf buf' st (Grows-append buf (with_nul name)) t) here;
        sits = here;
      }

  string_table_intern-IsInterned :
      (st : List StringEntry) (buf : List ℕ) (base : ℕ) (name : List ℕ)
      → base ≤ length buf
      → low ≤ length buf
      → length buf < 2 ^ 32
      → IsTable buf st
      → IsInterned buf name (string_table_intern st buf base name)
  unfolding string_table_intern
  string_table_intern-IsInterned st buf base name le high small t =
      by_found (find_string name st) refl
    where
      by_found :
          (o : Option ℕ)
          → find_string name st ≡ o
          → IsInterned buf name (elim o [
            | some offset ↦ record { offset = offset; table = st; buf = buf }
            | none ↦ intern_new st buf base name
          ])
      by_found none f = intern_new-IsInterned st buf base name le high small t
      by_found (some offset) f = record {
        grows = Grows-refl buf;
        table = t;
        sits = find_string-Stands buf name st t f;
      }

  -- Each name stands at its offset.
  abbrev pub AreNamed : List ℕ → List Resource → List ℕ → Type 0
  AreNamed buf [] [] = Unit {0}
  AreNamed buf [] (o ∷ os) = ⊥
  AreNamed buf (r ∷ rs) [] = ⊥
  AreNamed buf (r ∷ rs) (o ∷ os) = Stands low buf o (with_nul r.name) × AreNamed buf rs os

  abbrev GrowsTo : List ℕ → Interned → Type 0
  GrowsTo buf i = Grows buf i.buf

  intern-Grows :
      (st : List StringEntry) (buf : List ℕ) (base : ℕ) (name : List ℕ)
      → Grows buf (string_table_intern st buf base name).buf
  unfolding string_table_intern
  intern-Grows st buf base name = by_found (find_string name st)
    where
      by_found :
          (o : Option ℕ)
          → GrowsTo buf (elim o [
            | some offset ↦ record { offset = offset; table = st; buf = buf }
            | none ↦ intern_new st buf base name
          ])
      by_found none = Grows-append buf (with_nul name)
      by_found (some offset) = Grows-refl buf

  pub intern_names-Grows :
      (st : List StringEntry) (buf : List ℕ) (base : ℕ) (rs : List Resource)
      → Grows buf (intern_names st buf base rs).1
  unfolding intern_names
  intern_names-Grows st buf base [] = Grows-refl buf
  intern_names-Grows st buf base (r ∷ rs) =
      let i = string_table_intern st buf base r.name in
      Grows-trans (intern-Grows st buf base r.name) (intern_names-Grows i.table i.buf base rs)

  intern_names-AreNamed_from :
      (st : List StringEntry) (buf : List ℕ) (base : ℕ) (rs : List Resource)
      → base ≤ length buf
      → low ≤ length buf
      → length (intern_names st buf base rs).1 < 2 ^ 32
      → IsTable buf st
      → AreNamed (intern_names st buf base rs).1 rs (intern_names st buf base rs).0
  unfolding intern_names
  intern_names-AreNamed_from st buf base [] le high small t = tt
  intern_names-AreNamed_from st buf base (r ∷ rs) le high small t =
      let i = string_table_intern st buf base r.name in
      let g = intern-Grows st buf base r.name in
      let rest = intern_names-Grows i.table i.buf base rs in
      let n =
        string_table_intern-IsInterned st buf base r.name le high
          (omega (arith, small, Grows-le g, Grows-le rest)) t in
      (
        Stands-Grows rest n.sits,
        intern_names-AreNamed_from i.table i.buf base rs (omega (arith, le, Grows-le g))
            (omega (arith, high, Grows-le g)) small n.table,
      )

  -- If the buffer behind the string table is shorter than 2^32, each name stands at its offset.
  pub intern_names-AreNamed :
      (buf : List ℕ) (rs : List Resource)
      → low ≤ length buf
      → length (intern_names [] buf (length buf % 2 ^ 32) rs).1 < 2 ^ 32
      → AreNamed
          (intern_names [] buf (length buf % 2 ^ 32) rs).1
          rs
          (intern_names [] buf (length buf % 2 ^ 32) rs).0
  intern_names-AreNamed buf rs high small =
      intern_names-AreNamed_from [] buf (length buf % 2 ^ 32) rs (omega arith) high small tt

  pub AreNamed-Grows :
      (buf buf' : List ℕ) (rs : List Resource) (os : List ℕ)
      → Grows buf buf'
      → AreNamed buf rs os
      → AreNamed buf' rs os
  AreNamed-Grows buf buf' [] [] g n = tt
  AreNamed-Grows buf buf' [] (o ∷ os) g n = absurd n
  AreNamed-Grows buf buf' (r ∷ rs) [] g n = absurd n
  AreNamed-Grows buf buf' (r ∷ rs) (o ∷ os) g (s, n) =
      (Stands-Grows g s, AreNamed-Grows buf buf' rs os g n)

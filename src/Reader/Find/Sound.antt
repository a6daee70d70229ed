-- ===== src/Reader/Find/Sound.antt =====
-- What the lookups of libelfr return.
use elfrc.Base.{
  ℕ, zero, suc, ◌+◌, ◌*◌, ◌%◌, ◌≡◌, ◌⊎◌, refl, sym, ap, subst, ◌∙◌, arith, List, [], ◌∷◌, ◌++◌,
  Option, none, some, Bool, true, false, ◌&&◌, ltb, ◌==◌, if◌then◌else◌, Bool-cases, if-true,
  if-false, inl, inr, drop, get_elem?, Option-cases,
}
use native.Mathlib.Nat.{add-zero}
use elfrc.Bytes.{read}
use elfrc.Format.{bucket_of, erf_hash_empty, sizeof_bucket}
use elfrc.Reader.Outcome.{not_found, Outcome, ok, err, fault, ◌>>=◌, load, >>=-eq-ok}
use elfrc.Reader.Container.{Resource, Container}
use elfrc.Reader.Find.{
  strcmp_eq, name_matches, bucket_matches, probe, scan_names, find_hashed, find_name, erf_find_in,
}
use elfrc.Reader.Find.Names.{strcmp_eq-append}

-- Resource `i` of the container is there, and `strcmp` finds its name equal to `name`.
abbrev pub HasName : Container → List ℕ → ℕ → Type 0
HasName c name i =
    (r : Resource) × (get_elem? c.resources i ≡ some r)
    × (strcmp_eq (drop r.name c.base) name ≡ some true)

load-eq-ok {ℓ} : {A : Type ℓ} (o : Option A) {a : A} → load o ≡ ok a → o ≡ some a
load-eq-ok none e = cc
load-eq-ok (some b) e = cc

bucket_matches-HasName :
    (c : Container) (name : List ℕ) (h hash index : ℕ)
    → bucket_matches c name h hash index ≡ ok true
    → HasName c name index
unfolding bucket_matches name_matches
bucket_matches-HasName c name h hash index e = elim (Option-cases (get_elem? c.resources index)) [
  | inl f ↦ absurd (ground arith)
  | inr (r, f) ↦ (r, f, load-eq-ok (strcmp_eq (drop r.name c.base) name) (ground arith))
]

-- A test with an answer, and what comes after it.
visit_inversion :
    (free : Bool) (m : Outcome Bool) (index : ℕ) (rest : Outcome ℕ) {i : ℕ}
    → (if free then err not_found else (m >>= λ hit. if hit then ok index else rest)) ≡ ok i
    → ((m ≡ ok true) × (index ≡ i)) ⊎ (rest ≡ ok i)
visit_inversion true m index rest e = cc
visit_inversion false (ok true) index rest e = inl (refl, cc)
visit_inversion false (ok false) index rest e = inr e
visit_inversion false (err x) index rest e = cc
visit_inversion false fault index rest e = cc

probe-HasName :
    (c : Container) (name : List ℕ) (h slot left i : ℕ)
    → probe c name h slot left ≡ ok i
    → HasName c name i
unfolding probe
probe-HasName c name h slot zero i e = cc
probe-HasName c name h slot (suc left) i e =
    let (raw, _, e') =
      >>=-eq-ok (load (read c.base (c.hash_buckets + slot * sizeof_bucket) sizeof_bucket)) _ e in
    let b = bucket_of raw in
    elim (visit_inversion (b.directory_index == erf_hash_empty)
      (bucket_matches c name h b.hash b.directory_index) b.directory_index
      (probe c name h ((slot + 1) % c.hash_bucket_count) left) e') [
        | inl (hit, same) ↦
            subst (HasName c name) same
              (bucket_matches-HasName c name h b.hash b.directory_index hit)
        | inr rest ↦ probe-HasName c name h ((slot + 1) % c.hash_bucket_count) left i rest
      ]

scan_names-HasName :
    (c : Container) (name : List ℕ) (rs : List Resource) (i j : ℕ)
    → ((k : ℕ) → get_elem? c.resources (i + k) ≡ get_elem? rs k)
    → scan_names c name i rs ≡ ok j
    → HasName c name j
unfolding scan_names
scan_names-HasName c name [] i j same e = cc
scan_names-HasName c name (r ∷ rs) i j same e =
    elim (visit_inversion false (name_matches c r name) i (scan_names c name (i + 1) rs) e) [
      | inl (hit, at) ↦ subst (HasName c name) at (
        r,
        ap (get_elem? c.resources) (sym (add-zero i)) ∙ same 0,
        load-eq-ok (strcmp_eq (drop r.name c.base) name) (unfold name_matches in hit),
      )
      | inr rest ↦
          scan_names-HasName c name rs (i + 1) j
            (λ k. ap (get_elem? c.resources) (omega arith) ∙ same (suc k)) rest
    ]

-- Whatever bytes the container holds: a lookup that succeeds returns the index of a resource that
-- is there, and whose name `strcmp` finds equal to the one sought.
pub erf_find_in-HasName :
    (c : Container) (name : List ℕ) (i : ℕ)
    → erf_find_in (some c) (some name) ≡ ok i
    → HasName c name i
unfolding erf_find_in find_name find_hashed
erf_find_in-HasName c name i e = elim (Bool-cases (c.has_hash_table && ltb 0 c.hash_bucket_count)) [
  | inl hashed ↦ probe-HasName c name _ _ _ i (sym (if-true _ _ hashed) ∙ e)
  | inr plain ↦
      scan_names-HasName c name c.resources 0 i (λ k. ap (get_elem? c.resources) (omega arith))
        (sym (if-false _ _ plain) ∙ e)
]

-- In a container without a hash table, whose first resource has a name that runs to the end of the
-- memory, looking up a name that begins with all of these bytes reads outside of the memory.
pub erf_find_in_unterminated :
    (c : Container) (r : Resource) (name_bytes more : List ℕ)
    → c.has_hash_table ≡ false
    → get_elem? c.resources 0 ≡ some r
    → drop r.name c.base ≡ name_bytes
    → erf_find_in (some c) (some (name_bytes ++ more)) ≡ fault
unfolding erf_find_in find_name
erf_find_in_unterminated c r name_bytes more plain first bytes =
    if-false _ _ (ap (λ b. b && ltb 0 c.hash_bucket_count) plain) ∙ scan c.resources first
  where
    scan :
        (rs : List Resource)
        → get_elem? rs 0 ≡ some r
        → scan_names c (name_bytes ++ more) 0 rs ≡ fault
    scan [] e = cc
    scan (x ∷ rs) e =
        let same : x ≡ r = cc in
        let cmp : strcmp_eq (drop x.name c.base) (name_bytes ++ more) ≡ none =
          ap (λ (m : List ℕ). strcmp_eq m (name_bytes ++ more))
            (ap (λ (y : Resource). drop y.name c.base) same ∙ bytes)
          ∙ strcmp_eq-append name_bytes more in
        unfold scan_names name_matches in rw cmp refl

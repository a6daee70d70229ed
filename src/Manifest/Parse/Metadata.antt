-- ===== src/Manifest/Parse/Metadata.antt =====
-- `parse_metadata`: no key of a resource's metadata occurs twice.
use elfrc.Base.{
  ℕ, ◌≡◌, refl, sym, ◌∙◌, ap, List, [], ◌∷◌, ◌++◌, Bool, true, false, ◌||◌, Bool-cases, inl, inr,
  Option, none, some, if◌then◌else◌, subst, append-nil, append_assoc,
}
use elfrc.Bytes.{bytes_eq}
use elfrc.Bytes.Laws.{bytes_eq_iff}
use elfrc.Manifest.{MetadataKv}
use elfrc.Manifest.Yaml.{Document, node_at, scalar_dup}
use elfrc.Manifest.Parse.{Draft, has_key, pair_of, push_metadata, parse_pairs}

-- No two pairs have the same key.
abbrev pub HasDistinctKeys : List MetadataKv → Type 0
HasDistinctKeys [] = Unit {0}
HasDistinctKeys (m ∷ ms) = (has_key m.key ms ≡ false) × HasDistinctKeys ms

bytes_eq_sym : (a b : List ℕ) → bytes_eq a b ≡ false → bytes_eq b a ≡ false
bytes_eq_sym a b e = elim (Bool-cases (bytes_eq b a)) [
  | inr f ↦ f
  | inl t ↦
      let same = (bytes_eq_iff b a).0 t in
      let back : bytes_eq a b ≡ true = (bytes_eq_iff a b).1 (sym same) in cc
]

or_false : (a b : Bool) → (a || b) ≡ false → (a ≡ false) × (b ≡ false)
or_false false false e = (refl, refl)
or_false false true e = cc
or_false true b e = cc

has_key-append :
    (key : List ℕ) (ms : List MetadataKv) (m : MetadataKv)
    → has_key key ms ≡ false
    → bytes_eq m.key key ≡ false
    → has_key key (ms ++ (m ∷ [])) ≡ false
unfolding has_key
has_key-append key [] m none_there e = rw e refl
has_key-append key (x ∷ ms) m none_there e =
    let (first, rest) = or_false (bytes_eq x.key key) (has_key key ms) none_there in
    rw (first, has_key-append key ms m rest e) refl

-- A pair with a new key may be put behind.
pub HasDistinctKeys-append :
    (ms : List MetadataKv) (m : MetadataKv)
    → HasDistinctKeys ms
    → has_key m.key ms ≡ false
    → HasDistinctKeys (ms ++ (m ∷ []))
unfolding has_key
HasDistinctKeys-append [] m distinct new = (refl, tt)
HasDistinctKeys-append (x ∷ ms) m (head, tail) new =
    let (first, rest) = or_false (bytes_eq x.key m.key) (has_key m.key ms) new in
    (
      has_key-append x.key ms m head (bytes_eq_sym x.key m.key first),
      HasDistinctKeys-append ms m tail rest,
    )

-- The pairs are scalars that spell `ms`.
abbrev pub Spells : Document → List (ℕ × ℕ) → List MetadataKv → Type 0
Spells doc [] [] = Unit {0}
Spells doc [] (m ∷ ms) = ⊥
Spells doc ((k, v) ∷ pairs) [] = ⊥
Spells doc ((k, v) ∷ pairs) (m ∷ ms) =
    (pair_of (scalar_dup (node_at doc k)) (scalar_dup (node_at doc v)) ≡ some m)
    × Spells doc pairs ms

has_key_middle :
    (key : List ℕ) (ms rest : List MetadataKv) (m : MetadataKv)
    → has_key key (ms ++ (m ∷ rest)) ≡ false
    → bytes_eq m.key key ≡ false
unfolding has_key
has_key_middle key [] rest m e = (or_false (bytes_eq m.key key) (has_key key rest) e).0
has_key_middle key (x ∷ ms) rest m e =
    has_key_middle key ms rest m
      (or_false (bytes_eq x.key key) (has_key key (ms ++ (m ∷ rest))) e).1

-- A key that is behind `ms` is not in it.
distinct_new :
    (ms rest : List MetadataKv) (m : MetadataKv)
    → HasDistinctKeys (ms ++ (m ∷ rest))
    → has_key m.key ms ≡ false
unfolding has_key
distinct_new [] rest m h = refl
distinct_new (x ∷ ms) rest m (head, tail) =
    let differs = bytes_eq_sym m.key x.key (has_key_middle x.key ms rest m head) in
    rw (differs, distinct_new ms rest m tail) refl

abbrev with_metadata : Draft → List MetadataKv → Draft
with_metadata d ms = record d { resource = record d.resource { metadata = ms } }

one_round :
    {o : Option MetadataKv} {m : MetadataKv}
    → o ≡ some m
    → (test : MetadataKv → Bool) → test m ≡ false
    → (bad : Draft) (twice next : MetadataKv → Draft)
    → elim o [ none ↦ bad | some m ↦ if test m then twice m else next m ] ≡ next m
one_round here test new bad twice next = rw (here, new) refl

-- If the pairs of `metadata` are scalars, and all the keys are different from each other and from
-- those that are there, then they are put behind these in their order, and nothing else changes.
pub parse_pairs-Spells :
    (doc : Document) (line : ℕ) (d : Draft) (pairs : List (ℕ × ℕ)) (ms : List MetadataKv)
    → Spells doc pairs ms
    → HasDistinctKeys (d.resource.metadata ++ ms)
    → parse_pairs doc line d pairs
      ≡ record d { resource = record d.resource { metadata = d.resource.metadata ++ ms } }
unfolding parse_pairs
parse_pairs-Spells doc line d [] [] sp h =
    ap (with_metadata d) (sym (append-nil d.resource.metadata))
parse_pairs-Spells doc line d [] (m ∷ ms) sp h = absurd sp
parse_pairs-Spells doc line d ((k, v) ∷ pairs) [] sp h = absurd sp
parse_pairs-Spells doc line d ((k, v) ∷ pairs) (m ∷ ms) (here, sp) h =
    let old = d.resource.metadata in
    let new = distinct_new old ms m h in
    let assoc = append_assoc old (m ∷ []) ms in
    let rest =
      parse_pairs-Spells doc line (push_metadata d m) pairs ms sp
        (subst HasDistinctKeys (sym assoc) h) in
    one_round here (λ m'. has_key m'.key old) new _ _ _ ∙ rest ∙ ap (with_metadata d) assoc

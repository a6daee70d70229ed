-- ===== src/Reader/Find/Names.antt =====
-- Names in memory and their hash: what `strcmp` and the inlined hash of `erf_find_in` come to.
use elfrc.Base.{
  ℕ, ◌*◌, ◌%◌, ◌^◌, ◌≡◌, ◌≢◌, refl, sym, ap, ◌∙◌, arith, bit_xor, List, [], ◌∷◌, ◌++◌, Option, none,
  some, ◌==◌, Bool-cases, inl, inr, ==_iff, ==_refl, subst, ◌⊎◌,
}
use elfrc.Bytes.{c_string, bytes_eq}
use elfrc.Bytes.Laws.{IsCString}
use elfrc.Fnv1a.{fnv64_loop, elfr_fnv1a64}
use elfrc.Reader.Find.{strcmp_eq, name_hash}

name_hash-eq-fnv64_loop : (h : ℕ) (name : List ℕ) → name_hash h name ≡ fnv64_loop h name
unfolding name_hash fnv64_loop
name_hash-eq-fnv64_loop h [] = refl
name_hash-eq-fnv64_loop h (b ∷ name) =
    name_hash-eq-fnv64_loop (bit_xor h b * 0x100000001b3 % 2 ^ 64) name

-- The hash that the reader computes in its own loop is the writer's `elfr_fnv1a64`.
pub name_hash-eq-elfr_fnv1a64 :
    (name : List ℕ) → name_hash 0xcbf29ce484222325 name ≡ elfr_fnv1a64 name
unfolding elfr_fnv1a64
name_hash-eq-elfr_fnv1a64 name = name_hash-eq-fnv64_loop 0xcbf29ce484222325 name

c_string_inversion :
    (b : ℕ) (mem s : List ℕ)
    → c_string (b ∷ mem) ≡ some s
    → ((b ≡ 0) × (s ≡ [])) ⊎ ((b ≢ 0) × ((s' : List ℕ) × (c_string mem ≡ some s') × (s ≡ b ∷ s')))
unfolding c_string
c_string_inversion b mem s e = elim (Bool-cases (b == 0)) [
  | inl z ↦ inl ((==_iff b 0).0 z, ground arith)
  | inr nz ↦ inr ((λ z. ground arith), rest (c_string mem) refl (ground arith))
]
  where
    rest :
        (o : Option (List ℕ))
        → c_string mem ≡ o
        → elim o [ none ↦ none | some t ↦ some (b ∷ t) ] ≡ some s
        → (s' : List ℕ) × (c_string mem ≡ some s') × (s ≡ b ∷ s')
    rest none f g = cc
    rest (some t) f g = (t, f, cc)

strcmp_nil : (b : ℕ) (mem : List ℕ) → strcmp_eq (b ∷ mem) [] ≡ some (b == 0)
unfolding strcmp_eq
strcmp_nil b mem = refl

-- Where memory holds a terminated string, `strcmp` stays inside it and compares it with the name.
pub strcmp_eq-c_string :
    (mem name s : List ℕ)
    → IsCString name
    → c_string mem ≡ some s
    → strcmp_eq mem name ≡ some (bytes_eq s name)
unfolding bytes_eq strcmp_eq c_string
strcmp_eq-c_string [] name s h e = cc
strcmp_eq-c_string (b ∷ mem) [] s h e = elim (c_string_inversion b mem s e) [
  | inl (z, nil) ↦
      subst (λ t. strcmp_eq (b ∷ mem) [] ≡ some (bytes_eq t [])) (sym nil)
        (strcmp_nil b mem ∙ ap some (ground arith))
  | inr (nz, (t, f, c)) ↦
      subst (λ u. strcmp_eq (b ∷ mem) [] ≡ some (bytes_eq u [])) (sym c)
        (strcmp_nil b mem ∙ ap some (ground arith))
]
strcmp_eq-c_string (b ∷ mem) (x ∷ name) s ((pos, lt), h) e = elim (c_string_inversion b mem s e) [
  | inl (z, nil) ↦
      subst (λ t. strcmp_eq (b ∷ mem) (x ∷ name) ≡ some (bytes_eq t (x ∷ name))) (sym nil)
        (ground arith)
  | inr (nz, (t, f, c)) ↦
      subst (λ u. strcmp_eq (b ∷ mem) (x ∷ name) ≡ some (bytes_eq u (x ∷ name))) (sym c)
        (ground (arith, strcmp_eq-c_string mem name t h f))
]

-- `strcmp` reads on behind the memory if the bytes that are left agree with the name.
pub strcmp_eq-append : (mem rest : List ℕ) → strcmp_eq mem (mem ++ rest) ≡ none
unfolding strcmp_eq
strcmp_eq-append [] rest = refl
strcmp_eq-append (b ∷ mem) rest = rw (==_refl b) (strcmp_eq-append mem rest)

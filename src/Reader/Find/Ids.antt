-- ===== src/Reader/Find/Ids.antt =====
-- What `erf_find_id_in` returns.
use elfrc.Base.{
  ℕ, zero, suc, ◌+◌, ◌<◌, ◌≡◌, ◌≢◌, ◌⊎◌, refl, sym, ap, ◌∙◌, arith, List, [], ◌∷◌, Option, none,
  some, false, ◌==◌, if-true, if-false, inl, inr, get_elem?, ℕ_discrete, ==_iff,
}
use native.Mathlib.Nat.{add-zero}
use Prim.Native.Nat.add
use elfrc.Reader.Outcome.{not_found, ok, err}
use elfrc.Reader.Container.{Resource, Container}
use elfrc.Reader.Find.{scan_ids, erf_find_id_in}

-- Resource `i` is the first with the identifier.
pub record IsFirstId (id i : ℕ) (rs : List Resource) : Type 0 where
  pub resource : Resource
  pub present : get_elem? rs i ≡ some resource
  pub same : resource.id ≡ id
  pub earlier : (j : ℕ) (r : Resource) → j < i → get_elem? rs j ≡ some r → r.id ≢ id

IsFirstId-next :
    (id i : ℕ) (x : Resource) (rs : List Resource)
    → x.id ≢ id
    → IsFirstId id i rs
    → IsFirstId id (suc i) (x ∷ rs)
IsFirstId-next id i x rs ne f = record {
  resource = f.resource;
  present = f.present;
  same = f.same;
  earlier = earlier;
}
  where
    earlier : (j : ℕ) (r : Resource) → j < suc i → get_elem? (x ∷ rs) j ≡ some r → r.id ≢ id
    earlier zero r lt e =
        let this : x ≡ r = cc in λ same. ne (ap (λ (y : Resource). y.id) this ∙ same)
    earlier (suc j) r lt e = f.earlier j r (omega arith) e

none_of :
    (x : Resource) (rs : List Resource) (id : ℕ)
    → x.id ≢ id
    → ((j : ℕ) (r : Resource) → get_elem? rs j ≡ some r → r.id ≢ id)
    → (j : ℕ) (r : Resource) → get_elem? (x ∷ rs) j ≡ some r
    → r.id ≢ id
none_of x rs id ne all zero r e =
    let this : x ≡ r = cc in λ same. ne (ap (λ (y : Resource). y.id) this ∙ same)
none_of x rs id ne all (suc j) r e = all j r e

-- What the scan from index `base` on comes to.
scan_ids_lem :
    (id base : ℕ) (rs : List Resource)
    → ((i : ℕ) × (scan_ids id base rs ≡ ok (base + i)) × IsFirstId id i rs)
      ⊎ ((scan_ids id base rs ≡ err not_found)
          × ((j : ℕ) (r : Resource) → get_elem? rs j ≡ some r → r.id ≢ id))
unfolding scan_ids
scan_ids_lem id base [] = inr (refl, λ j r e. absurd (none_some e))
  where
    none_some : {r : Resource} → ◌≡◌ {A = Option Resource} none (some r) → ⊥
    none_some e = cc
scan_ids_lem id base (x ∷ rs) = elim (ℕ_discrete x.id id) [
  | yes same ↦ inl (
    0,
    if-true _ _ ((==_iff x.id id).1 same) ∙ ap ok (sym (add-zero base)),
    record { resource = x; present = refl; same = same; earlier = λ j r lt. absurd (omega arith) },
  )
  | no ne ↦
      let other : (x.id == id) ≡ false = ground arith in
      elim (scan_ids_lem id (base + 1) rs) [
        | inl (i, found, first) ↦ inl (
          suc i,
          if-false _ _ other ∙ found ∙ ap ok (omega arith),
          IsFirstId-next id i x rs ne first,
        )
        | inr (missing, all) ↦ inr (if-false _ _ other ∙ missing, none_of x rs id ne all)
      ]
]

-- `erf_find_id_in` returns the first resource with the identifier, or there is none and it reports
-- that none was found.
pub erf_find_id_in-IsFirstId :
    (c : Container) (id : ℕ)
    → ((i : ℕ) × (erf_find_id_in (some c) id ≡ ok i) × IsFirstId id i c.resources)
      ⊎ ((erf_find_id_in (some c) id ≡ err not_found)
          × ((j : ℕ) (r : Resource) → get_elem? c.resources j ≡ some r → r.id ≢ id))
unfolding erf_find_id_in
erf_find_id_in-IsFirstId c id = elim (scan_ids_lem id 0 c.resources) [
  | inl (i, found, first) ↦ inl (i, found ∙ ap ok (add.zero i), first)
  | inr none_there ↦ inr none_there
]

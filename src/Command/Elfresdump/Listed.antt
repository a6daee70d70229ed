-- ===== src/Command/Elfresdump/Listed.antt =====
-- What the list of a container's resources is.
use elfrc.Base.{
  ℕ, zero, suc, ◌+◌, ◌≤◌, ◌<◌, ◌≡◌, ◌⊎◌, inl, inr, refl, sym, subst, ap, ◌∙◌, arith, List, [], ◌∷◌,
  Option, none, some, length, get_elem?, get_or, ltb, Bool-cases, if-true, if-false,
}
use elfrc.Bytes.{string_at}
use elfrc.Reader.Container.{Resource, Container}
use elfrc.Reader.Find.{erf_resource_count, erf_resource_at}
use elfrc.Command.Elfresdump.Texts.{type_names, application_defined}
use elfrc.Command.Elfresdump.{type_name, seen, load, >>=-eq-seen, load-eq-seen}
use elfrc.Command.Elfresdump.Run.{Row, row_of, list_resources, listed, list_container}

-- The text for a type: its name in the table, or the text for all types behind the table.
abbrev pub IsTypeText : ℕ → List ℕ → Type 0
IsTypeText type text =
    (get_elem? type_names type ≡ some text)
    ⊎ ((length type_names ≤ type) × (text ≡ application_defined))

-- The row has the fields of resource `i`, and its name up to the zero byte.
pub record Shows (c : Container) (i : ℕ) (row : Row) : Type 0 where
  pub resource : Resource
  pub at : erf_resource_at (some c) i ≡ some resource
  pub id : row.id ≡ resource.id
  pub name : string_at c.base resource.name ≡ some row.name
  pub type : IsTypeText resource.type row.type
  pub language : row.language ≡ resource.language
  pub size : row.size ≡ resource.size

get_elem?-get_or :
    (xs : List (List ℕ)) (i : ℕ) → i < length xs → get_elem? xs i ≡ some (get_or xs i [])
get_elem?-get_or [] i lt = absurd (omega arith)
get_elem?-get_or (x ∷ xs) zero lt = refl
get_elem?-get_or (x ∷ xs) (suc i) lt = get_elem?-get_or xs i (omega arith)

type_name-IsTypeText : (type : ℕ) → IsTypeText type (type_name type)
unfolding type_name
type_name-IsTypeText type = elim (Bool-cases (ltb type (length type_names))) [
  | inl t ↦
      inl (get_elem?-get_or type_names type (ground (arith, t)) ∙ ap some (sym (if-true _ _ t)))
  | inr f ↦ inr (ground (arith, f), if-false _ _ f)
]

-- The rows show the `left` resources from `i` on, in order.
pub record AreShown (c : Container) (left i : ℕ) (rows : List Row) : Type 0 where
  pub count : length rows ≡ left
  pub each : (j : ℕ) (row : Row) → get_elem? rows j ≡ some row → Shows c (i + j) row

AreShown-cons :
    (c : Container) (left i : ℕ) (row : Row) (rows : List Row)
    → Shows c i row
    → AreShown c left (i + 1) rows
    → AreShown c (suc left) i (row ∷ rows)
AreShown-cons c left i row rows first rest = record { count = ap suc rest.count; each = each }
  where
    each : (j : ℕ) (x : Row) → get_elem? (row ∷ rows) j ≡ some x → Shows c (i + j) x
    each zero x e =
        let same : row ≡ x = cc in
        subst (λ (k : ℕ). Shows c k x) (omega arith) (subst (Shows c i) same first)
    each (suc j) x e = subst (λ (k : ℕ). Shows c k x) (omega arith) (rest.each j x e)

rows_eq : {x y : List Row} → seen x ≡ seen y → x ≡ y
rows_eq e = cc

list_resources-AreShown :
    (c : Container) (left i : ℕ) (rows : List Row)
    → list_resources c left i ≡ seen rows
    → AreShown c left i rows
unfolding list_resources
list_resources-AreShown c zero i rows e =
    subst (AreShown c 0 i) (rows_eq e)
      (record { count = refl; each = λ j row f. absurd (no_row f) })
  where
    no_row : {row : Row} → ◌≡◌ {A = Option Row} none (some row) → ⊥
    no_row e = cc
list_resources-AreShown c (suc left) i rows e =
    let (r, at, e1) = >>=-eq-seen (load (erf_resource_at (some c) i)) _ e in
    let (name, text, e2) = >>=-eq-seen (load (string_at c.base r.name)) _ e1 in
    let (rest, more, e3) = >>=-eq-seen (list_resources c left (i + 1)) _ e2 in
    let first : Shows c i (row_of r name) = record {
      resource = r;
      at = load-eq-seen (erf_resource_at (some c) i) at;
      id = refl;
      name = load-eq-seen (string_at c.base r.name) text;
      type = type_name-IsTypeText r.type;
      language = refl;
      size = refl;
    } in
    subst (AreShown c (suc left) i) (rows_eq e3) (
      AreShown-cons c left i (row_of r name) rest first
        (list_resources-AreShown c left (i + 1) rest more))

listed_eq : {x y : List Row} → seen (listed x) ≡ seen (listed y) → x ≡ y
listed_eq e = cc

-- A list that is printed has one row for each resource of the container, in the order of its
-- directory; a row has the resource's id, language and size, its name up to the zero byte, and the
-- text for its type.
pub list_container-AreShown :
    (c : Container) (rows : List Row)
    → list_container c ≡ seen (listed rows)
    → AreShown c c.resource_count 0 rows
unfolding list_container erf_resource_count
list_container-AreShown c rows e =
    let (rows', got, e1) = >>=-eq-seen (list_resources c (erf_resource_count (some c)) 0) _ e in
    subst (AreShown c c.resource_count 0) (listed_eq e1)
      (list_resources-AreShown c c.resource_count 0 rows' got)

-- ===== src/Reader/Default/Laws.antt =====
-- The calls without a handle are the calls on one container, which is opened once.
use elfrc.Base.{
  ℕ, ◌≡◌, ◌≢◌, refl, sym, ap, ◌∙◌, List, Option, none, some, true, false, length, foldl, ◌<◌, ◌^◌,
  inl, inr, [], ◌∷◌, Bool-cases, arith, subst,
}
use elfrc.Reader.Outcome.{Outcome, ok, err, fault}
use elfrc.Reader.Container.{Container}
use elfrc.Reader.Open.{erf_open_memory}
use elfrc.Reader.Open.Sound.{erf_open_memory-ne-fault}
use elfrc.Reader.Find.{erf_find_in, erf_find_id_in, erf_resource_data_in}
use elfrc.Reader.Default.{
  Process, initial, Call, returned, faulted, run, keep, attempt, open_linked, get_default_container,
  with_default, erf_find, erf_find_id, erf_resource_data,
}

-- What opening the linked memory gives, whenever it is done.
abbrev pub handle : Outcome Container → Option Container
handle (ok c) = some c
handle (err e) = none
handle fault = none

abbrev pub linked_handle : Option (List ℕ) → Option Container
linked_handle none = none
linked_handle (some b) = handle (erf_open_memory (some b) (length b))

-- The linked memory is no larger than an address space.
abbrev pub IsLinked : Option (List ℕ) → Type 0
IsLinked none = Unit {0}
IsLinked (some b) = length b < 2 ^ 64

-- The globals: nothing is open before the first attempt, and what it opened stays.
pub record IsReachable (linked : Option (List ℕ)) (p : Process) : Type 0 where
  pub before : p.attempted ≡ false → p.container ≡ none
  pub after : p.attempted ≡ true → p.container ≡ linked_handle linked

pub initial-IsReachable : (linked : Option (List ℕ)) → IsReachable linked initial
initial-IsReachable linked = record { before = λ e. refl; after = λ e. cc }

-- The value of a call: NULL or a result, or none if it left the memory.
abbrev pub value {ℓ} : {A : Type ℓ} → Call A → Option (Option A)
value (returned v p) = some v
value faulted = none

abbrev pub process {ℓ} : {A : Type ℓ} → Process → Call A → Process
process p (returned v q) = q
process p faulted = p

-- The value of the call with the handle; NULL if there is none.
abbrev pub direct {ℓ} :
    {A : Type ℓ} → Option Container → (Container → Outcome A) → Option (Option A)
direct none f = some none
direct (some c) f = value (run (f c) initial)

keep-Opens :
    (o : Outcome Container) (p : Process)
    → o ≢ fault
    → p.attempted ≡ true
    → (c : Option Container) × (q : Process) × (keep (run o p) ≡ returned c q)
      × (c ≡ handle o)
      × (q.attempted ≡ true)
      × (q.container ≡ c)
keep-Opens (ok c) p safe tried = (_, _, refl, refl, tried, refl)
keep-Opens (err e) p safe tried = (_, _, refl, refl, tried, refl)
keep-Opens fault p safe tried = absurd (safe refl)

open_linked-Opens :
    (linked : Option (List ℕ)) (p : Process)
    → IsLinked linked
    → p.attempted ≡ true
    → p.container ≡ none
    → (c : Option Container) × (q : Process) × (open_linked linked p ≡ returned c q)
      × (c ≡ linked_handle linked)
      × (q.attempted ≡ true)
      × (q.container ≡ c)
open_linked-Opens none p small tried nothing = (_, _, refl, refl, tried, nothing)
open_linked-Opens (some b) p small tried nothing =
    keep-Opens (erf_open_memory (some b) (length b)) p
      (erf_open_memory-ne-fault b (length b) (omega arith) small) tried

-- The value of a call on a handle does not depend on the globals.
run_value {ℓ} : {A : Type ℓ} (o : Outcome A) (p q : Process) → value (run o p) ≡ value (run o q)
run_value (ok a) p q = refl
run_value (err e) p q = refl
run_value fault p q = refl

value_lem {ℓ} :
    {A : Type ℓ} (f : Container → Outcome A) (c : Option Container) (q : Process)
    → value (with_default f (returned c q)) ≡ direct c f
value_lem f none q = refl
value_lem f (some c) q = run_value (f c) q initial

run-IsReachable {ℓ} :
    {A : Type ℓ} (o : Outcome A) (linked : Option (List ℕ)) (p q : Process)
    → IsReachable linked p
    → IsReachable linked q
    → IsReachable linked (process p (run o q))
run-IsReachable (ok a) linked p q r s = record { before = s.before; after = s.after }
run-IsReachable (err e) linked p q r s = record { before = s.before; after = s.after }
run-IsReachable fault linked p q r s = r

process_lem {ℓ} :
    {A : Type ℓ} (f : Container → Outcome A) (linked : Option (List ℕ)) (c : Option Container)
    (p q : Process)
    → IsReachable linked p
    → IsReachable linked q
    → IsReachable linked (process p (with_default f (returned c q)))
process_lem f linked none p q r s = s
process_lem f linked (some c) p q r s = run-IsReachable (f c) linked p q r s

true-ne-false : true ≢ false
true-ne-false e = cc

get_default_container-Opens :
    (linked : Option (List ℕ)) (p : Process)
    → IsLinked linked
    → IsReachable linked p
    → (c : Option Container) × (q : Process) × (get_default_container linked p ≡ returned c q)
      × (c ≡ linked_handle linked)
      × (q.attempted ≡ true)
      × (q.container ≡ c)
unfolding get_default_container
get_default_container-Opens linked p small r = elim (Bool-cases p.attempted) [
  | inl tried ↦ (p.container, p, rw tried refl, r.after tried, tried, refl)
  | inr new ↦
      let (c, q, got, same, tried, kept) =
        open_linked-Opens linked (attempt p) small refl (r.before new) in
      (c, q, rw new got, same, tried, kept)
]

with_default-direct {ℓ} :
    {A : Type ℓ} (f : Container → Outcome A) (linked : Option (List ℕ)) (p : Process)
    → IsLinked linked
    → IsReachable linked p
    → value (with_default f (get_default_container linked p)) ≡ direct (linked_handle linked) f
with_default-direct f linked p small r =
    let (c, q, got, same, _, _) = get_default_container-Opens linked p small r in
    ap (λ t. value (with_default f t)) got ∙ value_lem f c q ∙ ap (λ c. direct c f) same

with_default-IsReachable {ℓ} :
    {A : Type ℓ} (f : Container → Outcome A) (linked : Option (List ℕ)) (p : Process)
    → IsLinked linked
    → IsReachable linked p
    → IsReachable linked (process p (with_default f (get_default_container linked p)))
with_default-IsReachable f linked p small r =
    let (c, q, got, same, tried, kept) = get_default_container-Opens linked p small r in
    subst (λ t. IsReachable linked (process p (with_default f t))) (sym got)
      (process_lem f linked c p q r
        (record { before = λ e. absurd (true-ne-false (sym tried ∙ e)); after = λ e. kept ∙ same }))

-- A call without a handle.
pub data Api : Type 0 where
  find : Option (List ℕ) → Api
  find_id : ℕ → Api
  data_of : Option (List ℕ) → Api

-- The process after it.
unfoldable pub step : Option (List ℕ) → Process → Api → Process
step linked p (find name) = process p (erf_find linked name p)
step linked p (find_id id) = process p (erf_find_id linked id p)
step linked p (data_of name) = process p (erf_resource_data linked name p)

step-IsReachable :
    (linked : Option (List ℕ)) (p : Process) (call : Api)
    → IsLinked linked
    → IsReachable linked p
    → IsReachable linked (step linked p call)
unfolding step erf_find erf_find_id erf_resource_data
step-IsReachable linked p (find name) small r = with_default-IsReachable _ linked p small r
step-IsReachable linked p (find_id id) small r = with_default-IsReachable _ linked p small r
step-IsReachable linked p (data_of name) small r = with_default-IsReachable _ linked p small r

steps-IsReachable :
    (linked : Option (List ℕ)) (p : Process) (calls : List Api)
    → IsLinked linked
    → IsReachable linked p
    → IsReachable linked (foldl (step linked) p calls)
steps-IsReachable linked p [] small r = r
steps-IsReachable linked p (call ∷ calls) small r =
    steps-IsReachable linked (step linked p call) calls small
      (step-IsReachable linked p call small r)

-- For a linked memory smaller than 2^64, or none: after any sequence of calls without a handle
-- from the start of the process, the next one returns what the call on a handle of the linked
-- memory returns, and NULL if that memory is missing or not a container.
pub default_calls :
    (linked : Option (List ℕ)) (calls : List Api) (name : Option (List ℕ)) (id : ℕ)
    → IsLinked linked
    → let p = foldl (step linked) initial calls in
      (value (erf_find linked name p)
        ≡ direct (linked_handle linked) (λ c. erf_find_in (some c) name))
      × (value (erf_find_id linked id p)
          ≡ direct (linked_handle linked) (λ c. erf_find_id_in (some c) id))
      × (value (erf_resource_data linked name p)
          ≡ direct (linked_handle linked) (λ c. erf_resource_data_in (some c) name))
unfolding erf_find erf_find_id erf_resource_data
default_calls linked calls name id small =
    let p = foldl (step linked) initial calls in
    let r = steps-IsReachable linked initial calls small (initial-IsReachable linked) in
    (
      with_default-direct _ linked p small r,
      with_default-direct _ linked p small r,
      with_default-direct _ linked p small r,
    )

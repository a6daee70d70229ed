-- ===== src/Reader/Default.antt =====
-- src/libelfr/erf_lookup.c: the container that is linked into the program, opened on first use.
pub mod Laws
use elfrc.Base.{ℕ, List, Option, none, some, Bool, true, false, if◌then◌else◌, length}
use elfrc.Reader.Outcome.{ErfError, erf_ok, no_default_container, Outcome, ok, err, fault}
use elfrc.Reader.Container.{Container}
use elfrc.Reader.Open.{erf_open_memory}
use elfrc.Reader.Find.{erf_find_in, erf_find_id_in, erf_resource_data_in}

-- The globals: `g_last_error`, `g_default_attempted` and `g_default_container`.
pub record Process : Type 0 where
  pub last_error : ErfError
  pub attempted : Bool
  pub container : Option Container

abbrev pub initial : Process
initial = record { last_error = erf_ok; attempted = false; container = none }

abbrev pub elfr_set_last_error : ErfError → Process → Process
elfr_set_last_error e p = record {
  last_error = e;
  attempted = p.attempted;
  container = p.container;
}

-- A call that returns, `none` for NULL, or that leaves the memory.
pub data Call {ℓ} (A : Type ℓ) : Type ℓ where
  returned : Option A → Process → Call A
  faulted : Call A

-- A call of the API with a handle, in a process.
abbrev pub run {ℓ} : {A : Type ℓ} → Outcome A → Process → Call A
run (ok a) p = returned (some a) (elfr_set_last_error erf_ok p)
run (err e) p = returned none (elfr_set_last_error e p)
run fault p = faulted

-- `g_default_container = erf_open_memory(...)`, and the return of it.
abbrev pub keep : Call Container → Call Container
keep (returned c p) =
    returned c (record { last_error = p.last_error; attempted = p.attempted; container = c })
keep faulted = faulted

-- `g_default_attempted = 1`.
abbrev pub attempt : Process → Process
attempt p = record { last_error = p.last_error; attempted = true; container = p.container }

-- The memory between the two symbols that the linker provides; `none` if it does not.
abbrev pub open_linked : Option (List ℕ) → Process → Call Container
open_linked none p = returned none (elfr_set_last_error no_default_container p)
open_linked (some b) p = keep (run (erf_open_memory (some b) (length b)) p)

unfoldable pub get_default_container : Option (List ℕ) → Process → Call Container
get_default_container linked p =
    if p.attempted then returned p.container p else open_linked linked (attempt p)

-- `if (!c) return NULL;`, and the call with the handle.
abbrev pub with_default {ℓ} : {A : Type ℓ} → (Container → Outcome A) → Call Container → Call A
with_default f (returned none p) = returned none p
with_default f (returned (some c) p) = run (f c) p
with_default f faulted = faulted

unfoldable pub erf_find : Option (List ℕ) → Option (List ℕ) → Process → Call ℕ
erf_find linked name p =
    with_default (λ c. erf_find_in (some c) name) (get_default_container linked p)

unfoldable pub erf_find_id : Option (List ℕ) → ℕ → Process → Call ℕ
erf_find_id linked id p =
    with_default (λ c. erf_find_id_in (some c) id) (get_default_container linked p)

unfoldable pub erf_resource_data : Option (List ℕ) → Option (List ℕ) → Process → Call (ℕ × ℕ)
erf_resource_data linked name p =
    with_default (λ c. erf_resource_data_in (some c) name) (get_default_container linked p)

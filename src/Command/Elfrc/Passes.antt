-- ===== src/Command/Elfrc/Passes.antt =====
-- When elfrc exits with 0.
use elfrc.Base.{
  ℕ, ◌≡◌, ◌↔◌, refl, sym, ap, ◌∙◌, arith, List, Option, none, some, Bool, true, false, ◌==◌, length,
  if◌then◌else◌, Bool-cases, inl, inr, subst, ==_iff,
}
use elfrc.Manifest.{Manifest}
use elfrc.Manifest.Parse.Whole.{
  Parsed, accepted, refused, null_used, nameless, endless, elfrc_manifest_parse,
}
use elfrc.Container.Sections.{Loaded, loaded, failed}
use elfrc.Container.Build.{elfrc_container_build}
use elfrc.Elf.Object.{
  Output, cannot_open, short_write, complete, elf_object, elfrc_write_elf_object,
}
use elfrc.Command.Elfrc.{
  Options, no_options, Arguments, parsed, help_wanted, unknown_option, unexpected, parse_arguments,
  derive_output_name, World, exit, unending, null_pointer, unnamed, or_given, prefix_of, exit_code,
  write_output, compile_manifest, run_passes, main,
}

-- `output` was written completely, with the object of the container that the manifest stands for.
pub record IsCompiled (w : World) (args : List (List ℕ)) (output bytes : List ℕ) : Type 0 where
  pub opts : Options
  pub path : List ℕ
  pub manifest : Manifest
  pub content : List ℕ
  pub asked : parse_arguments no_options args ≡ parsed opts
  pub given : opts.manifest_path ≡ some path
  pub parses : elfrc_manifest_parse w.sys path ≡ accepted manifest
  pub builds : elfrc_container_build w.files manifest ≡ some (loaded content)
  pub named : or_given opts.output_path (derive_output_name path) ≡ output
  pub opened : w.opens output ≡ true
  pub object : elf_object w.elf_h content (prefix_of opts manifest) ≡ bytes
  pub taken : w.takes output bytes ≡ length bytes

object_inversion :
    (opens : Bool) (takes : List ℕ → ℕ) (object bytes : List ℕ)
    → (if opens
        then (if takes object == length object then complete object else short_write)
        else cannot_open)
      ≡ complete bytes
    → (opens ≡ true) × (object ≡ bytes) × (takes bytes ≡ length bytes)
object_inversion false takes object bytes e = cc
object_inversion true takes object bytes e = elim (Bool-cases (takes object == length object)) [
  | inr f ↦ absurd (ground (arith, f))
  | inl t ↦
      let same : object ≡ bytes = ground (arith, t) in
      (
        refl,
        same,
        subst (λ b. takes b ≡ length b) same ((==_iff (takes object) (length object)).0 t),
      )
]

exit_inversion :
    (o : Output) (output output' bytes : List ℕ)
    → exit (exit_code o) (some (output, o)) ≡ exit 0 (some (output', complete bytes))
    → (output ≡ output') × (o ≡ complete bytes)
exit_inversion o output output' bytes e =
    let same : (output, o) ≡ (output', complete bytes) = cc in
    (ap (λ (p : List ℕ × Output). p.0) same, ap (λ (p : List ℕ × Output). p.1) same)

-- A way through the passes that ends with the whole object.
passes_inversion :
    (w : World) (opts : Options) (path : List ℕ) (output bytes : List ℕ) (p : Parsed)
    → elfrc_manifest_parse w.sys path ≡ p
    → elim p [
      | accepted m ↦ compile_manifest w opts path m
      | refused r ↦ exit 1 none
      | null_used ↦ null_pointer
      | nameless ↦ unnamed
      | endless ↦ unending
    ]
      ≡ exit 0 (some (output, complete bytes))
    → (m : Manifest) × (elfrc_manifest_parse w.sys path ≡ accepted m)
      × (compile_manifest w opts path m ≡ exit 0 (some (output, complete bytes)))
passes_inversion w opts path output bytes (accepted m) f e = (m, f, e)
passes_inversion w opts path output bytes (refused r) f e = cc
passes_inversion w opts path output bytes null_used f e = cc
passes_inversion w opts path output bytes nameless f e = cc
passes_inversion w opts path output bytes endless f e = cc

build_inversion :
    (w : World) (opts : Options) (path : List ℕ) (m : Manifest) (output bytes : List ℕ)
    (o : Option (Loaded (List ℕ)))
    → elfrc_container_build w.files m ≡ o
    → elim o [
      | none ↦ unending
      | some (failed e) ↦ exit 1 none
      | some (loaded content) ↦ write_output w opts path m content
    ]
      ≡ exit 0 (some (output, complete bytes))
    → (content : List ℕ) × (elfrc_container_build w.files m ≡ some (loaded content))
      × (write_output w opts path m content ≡ exit 0 (some (output, complete bytes)))
build_inversion w opts path m output bytes none f e = cc
build_inversion w opts path m output bytes (some (failed x)) f e = cc
build_inversion w opts path m output bytes (some (loaded content)) f e = (content, f, e)

path_inversion :
    (w : World) (opts : Options) (output bytes : List ℕ) (o : Option (List ℕ))
    → opts.manifest_path ≡ o
    → elim o [ none ↦ exit 1 none | some path ↦ run_passes w opts path ]
      ≡ exit 0 (some (output, complete bytes))
    → (path : List ℕ) × (opts.manifest_path ≡ some path)
      × (run_passes w opts path ≡ exit 0 (some (output, complete bytes)))
path_inversion w opts output bytes none f e = cc
path_inversion w opts output bytes (some path) f e = (path, f, e)

main_inversion :
    (w : World) (args : List (List ℕ)) (output bytes : List ℕ) (a : Arguments)
    → parse_arguments no_options args ≡ a
    → elim a [
      | help_wanted ↦ exit 0 none
      | unknown_option x ↦ exit 1 none
      | unexpected x ↦ exit 1 none
      | parsed opts ↦ elim opts.manifest_path [
        | none ↦ exit 1 none
        | some path ↦ run_passes w opts path
      ]
    ]
      ≡ exit 0 (some (output, complete bytes))
    → (opts : Options) × (path : List ℕ) × (parse_arguments no_options args ≡ parsed opts)
      × (opts.manifest_path ≡ some path)
      × (run_passes w opts path ≡ exit 0 (some (output, complete bytes)))
main_inversion w args output bytes help_wanted f e = cc
main_inversion w args output bytes (unknown_option x) f e = cc
main_inversion w args output bytes (unexpected x) f e = cc
main_inversion w args output bytes (parsed opts) f e =
    let (path, given, ran) = path_inversion w opts output bytes opts.manifest_path refl e in
    (opts, path, f, given, ran)

main-IsCompiled :
    (w : World) (args : List (List ℕ)) (output bytes : List ℕ)
    → main w args ≡ exit 0 (some (output, complete bytes))
    → IsCompiled w args output bytes
unfolding main run_passes compile_manifest write_output elfrc_write_elf_object
main-IsCompiled w args output bytes e =
    let (opts, path, asked, given, ran) =
      main_inversion w args output bytes (parse_arguments no_options args) refl e in
    let (m, parses, compiled) =
      passes_inversion w opts path output bytes (elfrc_manifest_parse w.sys path) refl ran in
    let (content, builds, wrote) =
      build_inversion w opts path m output bytes (elfrc_container_build w.files m) refl compiled in
    let (named, whole) = exit_inversion _ _ output bytes wrote in
    let given_name = or_given opts.output_path (derive_output_name path) in
    let (opened, object, taken) =
      object_inversion (w.opens given_name) (w.takes given_name)
        (elf_object w.elf_h content (prefix_of opts m)) bytes whole in
    record {
      opts = opts;
      path = path;
      manifest = m;
      content = content;
      asked = asked;
      given = given;
      parses = parses;
      builds = builds;
      named = named;
      opened = ap w.opens (sym named) ∙ opened;
      object = object;
      taken = ap (λ o. w.takes o bytes) (sym named) ∙ taken;
    }

path_runs :
    (w : World) (opts : Options) {path : List ℕ} {o : Option (List ℕ)}
    → o ≡ some path
    → elim o [ none ↦ exit 1 none | some path ↦ run_passes w opts path ] ≡ run_passes w opts path
path_runs w opts e = rw e refl

pub main_runs :
    (w : World) (args : List (List ℕ)) (opts : Options) {path : List ℕ}
    → parse_arguments no_options args ≡ parsed opts
    → opts.manifest_path ≡ some path
    → main w args ≡ run_passes w opts path
unfolding main
main_runs w args opts asked given = rw (main, asked) (path_runs w opts given)

pub run_compiles :
    (w : World) (opts : Options) (path : List ℕ) {m : Manifest}
    → elfrc_manifest_parse w.sys path ≡ accepted m
    → run_passes w opts path ≡ compile_manifest w opts path m
unfolding run_passes
run_compiles w opts path parses = rw (run_passes, parses) refl

pub compile_writes :
    (w : World) (opts : Options) (path : List ℕ) (m : Manifest) {content : List ℕ}
    → elfrc_container_build w.files m ≡ some (loaded content)
    → compile_manifest w opts path m ≡ write_output w opts path m content
unfolding compile_manifest
compile_writes w opts path m builds = rw (compile_manifest, builds) refl

writes_whole :
    (opens : Bool) (takes : List ℕ → ℕ) (object bytes : List ℕ)
    → opens ≡ true
    → object ≡ bytes
    → takes bytes ≡ length bytes
    → (if opens
        then (if takes object == length object then complete object else short_write)
        else cannot_open)
      ≡ complete bytes
writes_whole opens takes object bytes opened same taken =
    let test : (takes bytes == length bytes) ≡ true =
      (==_iff (takes bytes) (length bytes)).1 taken in
    rw (opened, same, test) refl

write_exits :
    (w : World) (opts : Options) (path : List ℕ) (m : Manifest) (content output bytes : List ℕ)
    → or_given opts.output_path (derive_output_name path) ≡ output
    → elfrc_write_elf_object w.elf_h (w.opens output) (w.takes output) content (prefix_of opts m)
      ≡ complete bytes
    → write_output w opts path m content ≡ exit 0 (some (output, complete bytes))
unfolding write_output
write_exits w opts path m content output bytes named whole = rw (write_output, named, whole) refl

-- elfrc exits with 0 and a completely written output exactly if the arguments name a manifest, this
-- is accepted, its container is built, the output can be opened, and all of the ELF object around
-- that container is written to it, under the prefix that was asked for.
pub main_iff :
    (w : World) (args : List (List ℕ)) (output bytes : List ℕ)
    → (main w args ≡ exit 0 (some (output, complete bytes))) ↔ IsCompiled w args output bytes
unfolding elfrc_write_elf_object
main_iff w args output bytes = (
  main-IsCompiled w args output bytes,
  λ c.
      main_runs w args c.opts c.asked c.given
      ∙ run_compiles w c.opts c.path c.parses
      ∙ compile_writes w c.opts c.path c.manifest c.builds
      ∙ write_exits w c.opts c.path c.manifest c.content output bytes c.named
          (writes_whole (w.opens output) (w.takes output) _ bytes c.opened c.object c.taken),
)

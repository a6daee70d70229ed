-- ===== src/Command/Elfresdump/Extracted.antt =====
-- What an extracted file is.
use elfrc.Base.{
  ℕ, ◌≡◌, refl, sym, ap, ◌∙◌, List, [], ◌∷◌, Option, none, some, ◌==◌, ==_iff, get_elem?,
}
use elfrc.Bytes.{read}
use elfrc.Reader.Outcome.{Outcome, ok, err, fault}
use elfrc.Reader.Container.{Resource, Container}
use elfrc.Reader.Find.{erf_resource_count, erf_find_in}
use elfrc.Reader.Find.Sound.{HasName, erf_find_in-HasName}
use elfrc.Command.Elfresdump.{
  Look, seen, stopped, outside, ◌>>=◌, load, require, >>=-eq-seen, require-eq-seen, load-eq-seen,
  unknown_argument,
}
use elfrc.Command.Elfresdump.Run.{
  Row, list_resources, DumpWorld, DumpOptions, DumpArguments, parsed, help_wanted, unknown,
  no_dump_options, dump_arguments, Report, helped, listed, extracted, found_or, write_data,
  extract_resource, list_container, open_file, run_dump, elfresdump,
}

-- The file at `path` holds exactly the data of a resource of the container in `file` that has the name
-- which was asked for.
pub record IsExtracted (w : DumpWorld) (file name path bytes : List ℕ) : Type 0 where
  pub container : Container
  pub index : ℕ
  pub resource : Resource
  pub opens : open_file w file ≡ seen container
  pub named : HasName container name index
  pub at : get_elem? container.resources index ≡ some resource
  pub content : read container.base resource.bytes resource.size ≡ some bytes
  pub written : w.takes path bytes ≡ resource.size

found_or-eq-seen : (o : Outcome ℕ) {i : ℕ} → found_or o ≡ seen i → o ≡ ok i
found_or-eq-seen (ok i) e = cc
found_or-eq-seen (err x) e = cc
found_or-eq-seen fault e = cc

report_eq :
    {a b path bytes : List ℕ}
    → ◌≡◌ {A = Look Report} (seen (extracted a b)) (seen (extracted path bytes))
    → (a ≡ path) × (b ≡ bytes)
report_eq e = (cc, cc)

extract_inversion :
    (w : DumpWorld) (file : List ℕ) (c : Container) (name output path bytes : List ℕ)
    → open_file w file ≡ seen c
    → extract_resource w c name output ≡ seen (extracted path bytes)
    → (output ≡ path) × IsExtracted w file name path bytes
unfolding extract_resource write_data
extract_inversion w file c name output path bytes opens e =
    let (i, f, e1) = >>=-eq-seen (found_or (erf_find_in (some c) (some name))) _ e in
    let found = found_or-eq-seen (erf_find_in (some c) (some name)) f in
    let (r, at, e2) = >>=-eq-seen (load (get_elem? c.resources i)) _ e1 in
    let (_, opened, e3) = >>=-eq-seen (require (w.opens output) _) _ e2 in
    let (content, data_read, e4) = >>=-eq-seen (load (read c.base r.bytes r.size)) _ e3 in
    let (_, taken, e5) = >>=-eq-seen (require (w.takes output content == r.size) _) _ e4 in
    let (same_path, same_bytes) = report_eq e5 in
    let size = (==_iff (w.takes output content) r.size).0 (require-eq-seen _ _ taken) in
    (
      same_path,
      record {
        container = c;
        index = i;
        resource = r;
        opens = opens;
        named = erf_find_in-HasName c name i found;
        at = load-eq-seen (get_elem? c.resources i) at;
        content = load-eq-seen (read c.base r.bytes r.size) data_read ∙ ap some same_bytes;
        written = (λ j. w.takes (sym same_path j) (sym same_bytes j)) ∙ size;
      },
    )

no_list :
    (m : Look (List Row)) {path bytes : List ℕ}
    → (m >>= λ rows. seen (listed rows)) ≡ seen (extracted path bytes)
    → ⊥
no_list (seen rows) e = cc
no_list (stopped r) e = cc
no_list outside e = cc

run_inversion :
    (w : DumpWorld) (file : List ℕ) (name output : Option (List ℕ)) (path bytes : List ℕ)
    → run_dump w file name output ≡ seen (extracted path bytes)
    → (text : List ℕ) × (name ≡ some text)
      × (output ≡ some path)
      × IsExtracted w file text path bytes
unfolding run_dump list_container
run_inversion w file none output path bytes e =
    let (c, _, e1) = >>=-eq-seen (open_file w file) _ e in
    absurd (no_list (list_resources c (erf_resource_count (some c)) 0) e1)
run_inversion w file (some name) none path bytes e = cc
run_inversion w file (some name) (some output) path bytes e =
    let (c, opens, e1) = >>=-eq-seen (open_file w file) _ e in
    let (same, is_extracted) = extract_inversion w file c name output path bytes opens e1 in
    (name, refl, ap some same, is_extracted)

arguments_inversion :
    (w : DumpWorld) (file : List ℕ) (args : List (List ℕ)) (path bytes : List ℕ) (a : DumpArguments)
    → dump_arguments no_dump_options args ≡ a
    → elim a [
      | parsed opts ↦ run_dump w file opts.extract_name opts.output_path
      | help_wanted ↦ seen helped
      | unknown arg ↦ stopped (unknown_argument arg)
    ]
      ≡ seen (extracted path bytes)
    → (opts : DumpOptions) × (dump_arguments no_dump_options args ≡ parsed opts)
      × (run_dump w file opts.extract_name opts.output_path ≡ seen (extracted path bytes))
arguments_inversion w file args path bytes (parsed opts) f e = (opts, f, e)
arguments_inversion w file args path bytes help_wanted f e = cc
arguments_inversion w file args path bytes (unknown arg) f e = cc

-- If elfresdump ends with exit code 0 after it wrote a file, then the first argument is a file whose
-- `.resource` section is a container that opens, and what was written is exactly the data of a
-- resource in it with the name that was asked for, under the path that was asked for.
pub elfresdump-IsExtracted :
    (w : DumpWorld) (args : List (List ℕ)) (path bytes : List ℕ)
    → elfresdump w args ≡ seen (extracted path bytes)
    → (file : List ℕ) × (rest : List (List ℕ)) × (opts : DumpOptions) × (name : List ℕ) × (args
        ≡ file ∷ rest)
      × (dump_arguments no_dump_options rest ≡ parsed opts)
      × (opts.extract_name ≡ some name)
      × (opts.output_path ≡ some path)
      × IsExtracted w file name path bytes
unfolding elfresdump
elfresdump-IsExtracted w [] path bytes e = cc
elfresdump-IsExtracted w (file ∷ rest) path bytes e =
    let (opts, asked, ran) =
      arguments_inversion w file rest path bytes (dump_arguments no_dump_options rest) refl e in
    let (name, wants, goes, is_extracted) =
      run_inversion w file opts.extract_name opts.output_path path bytes ran in
    (file, rest, opts, name, refl, asked, wants, goes, is_extracted)

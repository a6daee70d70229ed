-- ===== src/Command/Elfrc/Parsing.antt =====
-- The arguments of elfrc: what a command line means.
use elfrc.Base.{ℕ, ◌≡◌, refl, ◌∙◌, arith, List, [], ◌∷◌, none, some, false, if◌then◌else◌}
use elfrc.Bytes.{bytes_eq}
use elfrc.Command.Text
use elfrc.Command.Elfrc.{
  Options, Arguments, parsed, help_wanted, unknown_option, unexpected, starts_with_dash, single,
  with_output, with_prefix, parse_arguments,
}

-- What a user means by one or two arguments.
pub data Item : Type 0 where
  output symbol_prefix manifest : List ℕ → Item

abbrev pub spell : List Item → List (List ℕ)
spell [] = []
spell (output path ∷ items) = Text.output ∷ path ∷ spell items
spell (symbol_prefix name ∷ items) = Text.symbol_prefix ∷ name ∷ spell items
spell (manifest path ∷ items) = path ∷ spell items

abbrev with_manifest : Options → List ℕ → Options
with_manifest opts path = record opts { manifest_path = some path }

-- The last option of a kind counts.
abbrev pub meaning : Options → List Item → Options
meaning opts [] = opts
meaning opts (output path ∷ items) = meaning (with_output opts path) items
meaning opts (symbol_prefix name ∷ items) = meaning (with_prefix opts name) items
meaning opts (manifest path ∷ items) = meaning (with_manifest opts path) items

-- There is at most one manifest, and its path does not start with a dash.
abbrev pub IsCommand : Options → List Item → Type 0
IsCommand opts [] = Unit {0}
IsCommand opts (output path ∷ items) = IsCommand (with_output opts path) items
IsCommand opts (symbol_prefix name ∷ items) = IsCommand (with_prefix opts name) items
IsCommand opts (manifest path ∷ items) =
    (starts_with_dash path ≡ false)
    × (opts.manifest_path ≡ none)
    × IsCommand (with_manifest opts path) items

dash-ne : (s t : List ℕ) → starts_with_dash s ≡ false → bytes_eq s (b'-' ∷ t) ≡ false
unfolding bytes_eq starts_with_dash
dash-ne [] t e = refl
dash-ne (b ∷ s) t e = ground (arith, e)

single-operand :
    (opts : Options) (path : List ℕ)
    → starts_with_dash path ≡ false
    → opts.manifest_path ≡ none
    → single opts path ≡ parsed (with_manifest opts path)
unfolding single
single-operand opts path operand first =
    rw (dash-ne path (b'h' ∷ []) operand, dash-ne path _ operand, operand, first) refl

-- A path is taken alone, also where another argument follows.
operand_round :
    (opts opts' : Options) (path next : List ℕ) (rest : List (List ℕ)) {a : Arguments}
    → a ≡ parsed opts'
    → bytes_eq path Text.output ≡ false
    → bytes_eq path Text.symbol_prefix ≡ false
    → (if bytes_eq path Text.output
        then parse_arguments (with_output opts next) rest
        else if bytes_eq path Text.symbol_prefix
        then parse_arguments (with_prefix opts next) rest
        else elim a [
          | parsed opts' ↦ parse_arguments opts' (next ∷ rest)
          | help_wanted ↦ help_wanted
          | unknown_option a ↦ unknown_option a
          | unexpected a ↦ unexpected a
        ])
      ≡ parse_arguments opts' (next ∷ rest)
operand_round opts opts' path next rest e not_output not_prefix =
    rw (not_output, not_prefix, e) refl

parse_operand :
    (opts : Options) (path : List ℕ) (rest : List (List ℕ))
    → starts_with_dash path ≡ false
    → opts.manifest_path ≡ none
    → parse_arguments opts (path ∷ rest) ≡ parse_arguments (with_manifest opts path) rest
unfolding parse_arguments
parse_operand opts path [] operand first = single-operand opts path operand first
parse_operand opts path (next ∷ rest) operand first =
    operand_round opts (with_manifest opts path) path next rest
      (single-operand opts path operand first) (dash-ne path _ operand) (dash-ne path _ operand)

parse_output :
    (opts : Options) (path : List ℕ) (rest : List (List ℕ))
    → parse_arguments opts (Text.output ∷ path ∷ rest)
      ≡ parse_arguments (with_output opts path) rest
unfolding parse_arguments bytes_eq
parse_output opts path rest = refl

parse_prefix :
    (opts : Options) (name : List ℕ) (rest : List (List ℕ))
    → parse_arguments opts (Text.symbol_prefix ∷ name ∷ rest)
      ≡ parse_arguments (with_prefix opts name) rest
unfolding parse_arguments bytes_eq
parse_prefix opts name rest = refl

-- Options and the manifest may come in any order. If there is at most one manifest, and its path
-- does not start with a dash, the arguments are accepted, and the last option of each kind counts,
-- whatever the paths and names of the options look like.
pub parse_arguments-spell :
    (opts : Options) (items : List Item)
    → IsCommand opts items
    → parse_arguments opts (spell items) ≡ parsed (meaning opts items)
parse_arguments-spell opts [] c = unfold parse_arguments in refl
parse_arguments-spell opts (output path ∷ items) c =
    parse_output opts path (spell items) ∙ parse_arguments-spell (with_output opts path) items c
parse_arguments-spell opts (symbol_prefix name ∷ items) c =
    parse_prefix opts name (spell items) ∙ parse_arguments-spell (with_prefix opts name) items c
parse_arguments-spell opts (manifest path ∷ items) (operand, first, c) =
    parse_operand opts path (spell items) operand first
    ∙ parse_arguments-spell (with_manifest opts path) items c

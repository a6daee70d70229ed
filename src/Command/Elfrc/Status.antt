-- ===== src/Command/Elfrc/Status.antt =====
-- What the exit code of elfrc says of the output.
use elfrc.Base.{ℕ, ◌≡◌, List, Option, none, some}
use elfrc.Manifest.{Manifest}
use elfrc.Elf.Object.{Output, cannot_open, short_write, complete}
use elfrc.Command.Elfrc.{
  Arguments, parsed, help_wanted, unknown_option, unexpected, Run, exit, unending, null_pointer,
  unnamed,
}

-- 0 stands for help that was asked for and for an output that was written completely, 1 for all else.
abbrev pub ExitsAs : Arguments → ℕ → Option (List ℕ × Output) → Type 0
ExitsAs help_wanted code o = (code ≡ 0) × (o ≡ none)
ExitsAs (unknown_option a) code o = (code ≡ 1) × (o ≡ none)
ExitsAs (unexpected a) code o = (code ≡ 1) × (o ≡ none)
ExitsAs (parsed opts) code none = code ≡ 1
ExitsAs (parsed opts) code (some (path, cannot_open)) = code ≡ 1
ExitsAs (parsed opts) code (some (path, short_write)) = code ≡ 1
ExitsAs (parsed opts) code (some (path, complete bytes)) = code ≡ 0

abbrev IsHonest : Arguments → Run → Type 0
IsHonest a (exit code o) = ExitsAs a code o
IsHonest a unending = Unit {0}
IsHonest a null_pointer = Unit {0}
IsHonest a unnamed = Unit {0}

-- ===== src/Format/ResourceFlag.antt =====
-- The ERF_RFLAG_* bits of include/elfr/erf_format.h.
use elfrc.Base.{ℕ}

abbrev pub compressed : ℕ
compressed = 1

abbrev pub encrypted : ℕ
encrypted = 2

abbrev pub read_only : ℕ
read_only = 4

abbrev pub executable : ℕ
executable = 8

abbrev pub optional : ℕ
optional = 16

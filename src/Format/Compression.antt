-- ===== src/Format/Compression.antt =====
-- `enum erf_compression` of include/elfr/erf_format.h.
use elfrc.Base.{ℕ}

abbrev pub none : ℕ
none = 0

abbrev pub deflate : ℕ
deflate = 1

abbrev pub zstd : ℕ
zstd = 2

abbrev pub lz4 : ℕ
lz4 = 3

abbrev pub brotli : ℕ
brotli = 4

abbrev pub xz : ℕ
xz = 5

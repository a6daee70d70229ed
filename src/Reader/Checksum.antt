-- ===== src/Reader/Checksum.antt =====
-- `erf_verify_checksum`: the checksum is recomputed over a copy in which its field is zeroed.
use elfrc.Base.{ℕ, List, ◌++◌, Option, none, some, Bool, false, ◌==◌, take, drop, replicate}
use elfrc.Bytes.{read}
use elfrc.Crc64.{elfr_crc64}
use elfrc.Reader.Outcome.{Outcome, ok, ◌>>=◌, load}
use elfrc.Reader.Container.{Container}

-- `h->checksum = 0`: the eight bytes at offset 88.
unfoldable pub zero_checksum : List ℕ → List ℕ
zero_checksum mem = take 88 mem ++ (replicate 8 0 ++ drop 96 mem)

-- The copy is of `size` bytes, the size that the container was opened with.
unfoldable pub erf_verify_checksum : Option Container → Outcome Bool
erf_verify_checksum none = ok false
erf_verify_checksum (some c) = do
  tmp ← load (read c.base 0 c.size)
  ok (elfr_crc64 (zero_checksum tmp) == c.header.checksum)

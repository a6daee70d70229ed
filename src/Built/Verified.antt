-- ===== src/Built/Verified.antt =====
-- `erf_verify_checksum` on a built container.
use elfrc.Base.{
  ℕ, ◌+◌, ◌≡◌, refl, sym, ap, ◌∙◌, arith, List, [], ◌∷◌, ◌++◌, some, true, length, take, drop,
  ==_iff,
}
use elfrc.Bytes.{le_bytes, read}
use elfrc.Bytes.Laws.{read-some}
use elfrc.Crc64.{elfr_crc64}
use elfrc.Format.{Header, HashBucket, header_bytes}
use elfrc.Manifest
use elfrc.Container.Sections.{Files}
use elfrc.Container.Build.{Layout, overwrite, header_for, finish}
use elfrc.Container.Written.Finished.{unsigned}
use elfrc.Reader.Outcome.{ok}
use elfrc.Reader.Container.{Container}
use elfrc.Reader.Checksum.{zero_checksum, erf_verify_checksum}
use elfrc.Built.Opened.{IsHandle}

-- With the checksum field zeroed, the signed header is the unsigned one.
zero_checksum_lem :
    (rs : List Manifest.Resource) (l : Layout) (crc : ℕ) (rest : List ℕ)
    → zero_checksum (header_bytes (record (header_for rs l) { checksum = crc }) ++ rest)
      ≡ header_bytes (header_for rs l) ++ rest
unfolding zero_checksum header_for header_bytes le_bytes
zero_checksum_lem rs l crc rest = refl

-- Writing a header over a header leaves what follows.
overwrite_twice :
    (rs : List Manifest.Resource) (l : Layout) (crc : ℕ) (buf : List ℕ)
    → overwrite
        (overwrite buf 0 (header_bytes (header_for rs l)))
        0
        (header_bytes (record (header_for rs l) { checksum = crc }))
      ≡ header_bytes (record (header_for rs l) { checksum = crc })
        ++ drop (0 + length (header_bytes (header_for rs l))) buf
unfolding header_for header_bytes le_bytes
overwrite_twice rs l crc buf = refl

zero_checksum-finish :
    (rs : List Manifest.Resource) (l : Layout) → zero_checksum (finish rs l) ≡ unsigned rs l
unfolding finish
zero_checksum-finish rs l =
    ap zero_checksum (overwrite_twice rs l (elfr_crc64 (unsigned rs l)) _)
    ∙ zero_checksum_lem rs l (elfr_crc64 (unsigned rs l)) _

take_whole {ℓ} : {A : Type ℓ} (xs : List A) → take (length xs) xs ≡ xs
take_whole [] = refl
take_whole (x ∷ xs) = ap (λ l. x ∷ l) (take_whole xs)

pub erf_verify_checksum-finish :
    (files : Files) (rs : List Manifest.Resource) (t : List HashBucket) (l : Layout) (c : Container)
    → IsHandle files rs t l (finish rs l) c
    → erf_verify_checksum (some c) ≡ ok true
unfolding erf_verify_checksum header_for
erf_verify_checksum-finish files rs t l c held =
    let mem = finish rs l in
    let all : read c.base 0 c.size ≡ some mem =
      ap (λ (m : List ℕ). read m 0 c.size) held.base
      ∙ ap (read mem 0) held.size
      ∙ read-some mem 0 (length mem) (omega arith)
      ∙ ap some (take_whole mem) in
    let same : elfr_crc64 (zero_checksum mem) ≡ c.header.checksum =
      ap elfr_crc64 (zero_checksum-finish rs l)
      ∙ ap (λ (h : Header). h.checksum) (sym held.header) in
    rw all (ap ok ((==_iff (elfr_crc64 (zero_checksum mem)) c.header.checksum).1 same))

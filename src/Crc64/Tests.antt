-- ===== src/Crc64/Tests.antt =====
-- The published check value of CRC-64/XZ, as in tests/unit/test_hash.c.
use elfrc.Base.{ℕ, ◌≢◌, arith, List, [], ◌∷◌, ◌≡◌, refl}
use elfrc.Crc64.{crc_shift, crc_shifts, crc64_init_from, crc64_table, crc64_loop, elfr_crc64}
use elfrc.Crc64.Bitwise.{crc64_bitwise, elfr_crc64-eq-crc64_bitwise}
use elfrc.Crc64.Detect.{elfr_crc64_detects_byte}

abbrev nine_digits : List ℕ
nine_digits = b'1' ∷ b'2' ∷ b'3' ∷ b'4' ∷ b'5' ∷ b'6' ∷ b'7' ∷ b'8' ∷ b'9' ∷ []

check_value : elfr_crc64 nine_digits ≡ 0x995DC9BBDF1939FA
unfolding crc_shift crc_shifts crc64_init_from crc64_table crc64_loop elfr_crc64
check_value = refl

elfr_crc64-eq-crc64_bitwise_example :
    elfr_crc64 (b'1' ∷ b'2' ∷ []) ≡ crc64_bitwise (b'1' ∷ b'2' ∷ [])
elfr_crc64-eq-crc64_bitwise_example =
    elfr_crc64-eq-crc64_bitwise (b'1' ∷ b'2' ∷ []) (omega arith, (omega arith, tt))

elfr_crc64_detects_byte_example :
    elfr_crc64 (b'1' ∷ b'2' ∷ b'3' ∷ []) ≢ elfr_crc64 (b'1' ∷ b'9' ∷ b'3' ∷ [])
elfr_crc64_detects_byte_example =
    elfr_crc64_detects_byte (b'1' ∷ []) (b'3' ∷ []) b'2' b'9' (omega arith, tt) (omega arith, tt)
      (omega arith) (omega arith) (omega arith)

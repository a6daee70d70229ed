-- ===== src/ByteBuf/Tests.antt =====
-- The buffer on small inputs.
use elfrc.Base.{◌≡◌, arith, List, [], ◌∷◌, some}
use elfrc.ByteBuf.{ByteBuf, empty, byte_buf_reserve}
use elfrc.ByteBuf.Grow.{Reserved, byte_buf_reserve-Reserved}
use elfrc.ByteBuf.Refine.{Call, append, align}

byte_buf_reserve-Reserved_example :
    (r : ByteBuf) × (byte_buf_reserve empty 5000 ≡ some r) × Reserved empty 5000 r
byte_buf_reserve-Reserved_example = byte_buf_reserve-Reserved empty 5000 (omega arith) (omega arith)

abbrev two_calls : List Call
two_calls = append (1 ∷ 2 ∷ []) ∷ align 8 ∷ []

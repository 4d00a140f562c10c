-- ===== src/Wire/Order.antt =====
-- The byte order of shared/c2s_protocol.h: what one machine stores, another reads.
use capture2cloud.Base.{ℕ, ◌+◌, ◌*◌, ◌/◌, ◌%◌, ◌^◌, ◌<◌, [], ◌∷◌, ◌≡◌, arith, Bool, get_or}
use capture2cloud.Wire.{c2s_le16, c2s_le32, store16, load16, store32, load32}

-- On either kind of machine a 16-bit number stands on the wire lowest byte first.
pub store16-c2s_le16 :
    (big : Bool) (v : ℕ) → v < 65536 → store16 big (c2s_le16 big v) ≡ v % 256 ∷ v / 256 ∷ []
unfolding store16 c2s_le16
store16-c2s_le16 big v h = ground arith

pub c2s_le16-load16 :
    (big : Bool) (b0 b1 : ℕ) → b0 < 256 → b1 < 256 → c2s_le16 big (load16 big b0 b1) ≡ b0 + b1 * 256
unfolding load16 c2s_le16
c2s_le16-load16 big b0 b1 p q = ground arith

pub store32-c2s_le32 :
    (big : Bool) (v : ℕ)
    → v < 2 ^ 32
    → store32 big (c2s_le32 big v) ≡ v % 256 ∷ v / 256 % 256 ∷ v / 65536 % 256 ∷ v / 16777216 ∷ []
unfolding store32 c2s_le32
store32-c2s_le32 big v h = ground arith

pub c2s_le32-load32 :
    (big : Bool) (b0 b1 b2 b3 : ℕ)
    → b0 < 256
    → b1 < 256
    → b2 < 256
    → b3 < 256
    → c2s_le32 big (load32 big b0 b1 b2 b3) ≡ b0 + b1 * 256 + b2 * 65536 + b3 * 16777216
unfolding load32 c2s_le32
c2s_le32-load32 big b0 b1 b2 b3 p q r s = ground arith

-- A 32-bit number that one machine puts on the wire is the number that any other machine takes
-- off it, whatever the byte order of the two.
pub wire32 :
    (sender receiver : Bool) (v : ℕ)
    → v < 2 ^ 32
    → let bytes = store32 sender (c2s_le32 sender v) in
      c2s_le32 receiver (
        load32 receiver (get_or bytes 0 0) (get_or bytes 1 0) (get_or bytes 2 0) (get_or bytes 3 0))
      ≡ v
wire32 sender receiver v h = rw (store32-c2s_le32 sender v h) (
    omega
      (arith, c2s_le32-load32 receiver (v % 256) (v / 256 % 256) (v / 65536 % 256) (v / 16777216)))

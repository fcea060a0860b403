-- ===== src/Rawimg/Layout.antt =====
-- An independent description of a packed raw row: a block of bytes, taken in stream order, is one
-- big-endian number, and its digits to the base 2 ^ bpp are the pixels, the first one on top. In a
-- little endian format the stream takes the bytes of each 16-bit unit the other way round.
use chdkptp_jet_tx1_jet_nano.Common.{
  ℕ, zero, suc, ◌+◌, ◌-◌, ◌*◌, ◌/◌, ◌%◌, ◌^◌, Bool, true, false, ◌==◌, if◌then◌else◌, Memory,
}

pub record Layout : Type 0 where
  pub bits : ℕ
  pub bytes : ℕ
  pub pixels : ℕ
  pub swapped : Bool

-- The first `n` bytes of a stream as a number.
abbrev pub big : (ℕ → ℕ) → ℕ → ℕ
big s zero = 0
big s (suc n) = big s n * 256 + s n

-- Where byte `i` of the stream stands in the block.
abbrev pub position : Bool → ℕ → ℕ
position false i = i
position true i = if i % 2 == 0 then i + 1 else i - 1

abbrev pub stream : Bool → (ℕ → ℕ) → ℕ → ℕ → ℕ
stream swapped c addr i = c (addr + position swapped i)

abbrev pub block_number : Layout → Memory → ℕ → ℕ
block_number f m addr = big (stream f.swapped m.cell addr) f.bytes

-- The weight of the last bit of pixel `k` of a block.
abbrev pub weight : Layout → ℕ → ℕ
weight f k = 2 ^ (f.bits * (f.pixels - 1 - k))

-- Pixel `k` of a block whose number is `b`.
abbrev pub pixel_of : Layout → ℕ → ℕ → ℕ
pixel_of f b k = b / weight f k % 2 ^ f.bits

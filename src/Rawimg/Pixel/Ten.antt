-- ===== src/Rawimg/Pixel/Ten.antt =====
-- rawimg.c: 10-bit pixels, in blocks of 8 (little endian) and of 4 (big endian).
use chdkptp_jet_tx1_jet_nano.Common.{
  ℕ, ◌+◌, ◌*◌, ◌/◌, bit_and, bit_or, Option, some, ◌==◌, if◌then◌else◌, u32, ◌<<◌, ◌>>◌, Memory,
  load, store, ◌>>=◌,
}

-- The `switch` of `raw_get_pixel_10l` on the pixel's place in the block at `addr`.
unfoldable pub get_case_10l : Memory → ℕ → ℕ → Option ℕ
get_case_10l m addr k =
    if k == 0
    then (do
      a ← load m (addr + 1)
      b ← load m (addr + 0)
      some (bit_or (bit_and 0x3fc (a << 2)) (b >> 6)))
    else if k == 1
    then (do
      a ← load m (addr + 0)
      b ← load m (addr + 3)
      some (bit_or (bit_and 0x3f0 (a << 4)) (b >> 4)))
    else if k == 2
    then (do
      a ← load m (addr + 3)
      b ← load m (addr + 2)
      some (bit_or (bit_and 0x3c0 (a << 6)) (b >> 2)))
    else if k == 3
    then (do a ← load m (addr + 2); b ← load m (addr + 5); some (bit_or (bit_and 0x300 (a << 8)) b))
    else if k == 4
    then (do
      a ← load m (addr + 4)
      b ← load m (addr + 7)
      some (bit_or (bit_and 0x3fc (a << 2)) (b >> 6)))
    else if k == 5
    then (do
      a ← load m (addr + 7)
      b ← load m (addr + 6)
      some (bit_or (bit_and 0x3f0 (a << 4)) (b >> 4)))
    else if k == 6
    then (do
      a ← load m (addr + 6)
      b ← load m (addr + 9)
      some (bit_or (bit_and 0x3c0 (a << 6)) (b >> 2)))
    else if k == 7
    then (do a ← load m (addr + 9); b ← load m (addr + 8); some (bit_or (bit_and 0x300 (a << 8)) b))
    else some 0

unfoldable pub raw_get_pixel_10l : Memory → ℕ → ℕ → ℕ → ℕ → Option ℕ
raw_get_pixel_10l m p row_bytes x y =
    get_case_10l m (p + u32 (y * row_bytes) + u32 (x / 8 * 10)) (bit_and x 7)

-- The `switch` of `raw_set_pixel_10l`.
unfoldable pub set_case_10l : Memory → ℕ → ℕ → ℕ → Option Memory
set_case_10l m addr k value =
    if k == 0
    then (do
      a0 ← load m (addr + 0)
      m1 ← store m (addr + 0) (bit_or (bit_and a0 0x3f) (value << 6))
      store m1 (addr + 1) (value >> 2))
    else if k == 1
    then (do
      a0 ← load m (addr + 0)
      m1 ← store m (addr + 0) (bit_or (bit_and a0 0xc0) (value >> 4))
      a1 ← load m1 (addr + 3)
      store m1 (addr + 3) (bit_or (bit_and a1 0x0f) (value << 4)))
    else if k == 2
    then (do
      a0 ← load m (addr + 2)
      m1 ← store m (addr + 2) (bit_or (bit_and a0 0x03) (value << 2))
      a1 ← load m1 (addr + 3)
      store m1 (addr + 3) (bit_or (bit_and a1 0xf0) (value >> 6)))
    else if k == 3
    then (do
      a0 ← load m (addr + 2)
      m1 ← store m (addr + 2) (bit_or (bit_and a0 0xfc) (value >> 8))
      store m1 (addr + 5) value)
    else if k == 4
    then (do
      m1 ← store m (addr + 4) (value >> 2)
      a1 ← load m1 (addr + 7)
      store m1 (addr + 7) (bit_or (bit_and a1 0x3f) (value << 6)))
    else if k == 5
    then (do
      a0 ← load m (addr + 6)
      m1 ← store m (addr + 6) (bit_or (bit_and a0 0x0f) (value << 4))
      a1 ← load m1 (addr + 7)
      store m1 (addr + 7) (bit_or (bit_and a1 0xc0) (value >> 4)))
    else if k == 6
    then (do
      a0 ← load m (addr + 6)
      m1 ← store m (addr + 6) (bit_or (bit_and a0 0xf0) (value >> 6))
      a1 ← load m1 (addr + 9)
      store m1 (addr + 9) (bit_or (bit_and a1 0x03) (value << 2)))
    else if k == 7
    then (do
      m1 ← store m (addr + 8) value
      a1 ← load m1 (addr + 9)
      store m1 (addr + 9) (bit_or (bit_and a1 0xfc) (value >> 8)))
    else some m

unfoldable pub raw_set_pixel_10l : Memory → ℕ → ℕ → ℕ → ℕ → ℕ → Option Memory
raw_set_pixel_10l m p row_bytes x y value =
    set_case_10l m (p + u32 (y * row_bytes) + u32 (x / 8 * 10)) (bit_and x 7) value

-- The `switch` of `raw_get_pixel_10b` on the pixel's place in the block at `addr`.
unfoldable pub get_case_10b : Memory → ℕ → ℕ → Option ℕ
get_case_10b m addr k =
    if k == 0
    then (do
      a ← load m (addr + 0)
      b ← load m (addr + 1)
      some (bit_or (bit_and 0x3fc (a << 2)) (b >> 6)))
    else if k == 1
    then (do
      a ← load m (addr + 1)
      b ← load m (addr + 2)
      some (bit_or (bit_and 0x3f0 (a << 4)) (b >> 4)))
    else if k == 2
    then (do
      a ← load m (addr + 2)
      b ← load m (addr + 3)
      some (bit_or (bit_and 0x3c0 (a << 6)) (b >> 2)))
    else if k == 3
    then (do a ← load m (addr + 3); b ← load m (addr + 4); some (bit_or (bit_and 0x300 (a << 8)) b))
    else some 0

unfoldable pub raw_get_pixel_10b : Memory → ℕ → ℕ → ℕ → ℕ → Option ℕ
raw_get_pixel_10b m p row_bytes x y =
    get_case_10b m (p + u32 (y * row_bytes) + u32 (x / 4 * 5)) (bit_and x 3)

-- The `switch` of `raw_set_pixel_10b`.
unfoldable pub set_case_10b : Memory → ℕ → ℕ → ℕ → Option Memory
set_case_10b m addr k value =
    if k == 0
    then (do
      m1 ← store m (addr + 0) (value >> 2)
      a1 ← load m1 (addr + 1)
      store m1 (addr + 1) (bit_or (bit_and a1 0x3f) (value << 6)))
    else if k == 1
    then (do
      a0 ← load m (addr + 1)
      m1 ← store m (addr + 1) (bit_or (bit_and a0 0xc0) (value >> 4))
      a1 ← load m1 (addr + 2)
      store m1 (addr + 2) (bit_or (bit_and a1 0x0f) (value << 4)))
    else if k == 2
    then (do
      a0 ← load m (addr + 3)
      m1 ← store m (addr + 3) (bit_or (bit_and a0 0x03) (value << 2))
      a1 ← load m1 (addr + 2)
      store m1 (addr + 2) (bit_or (bit_and a1 0xf0) (value >> 6)))
    else if k == 3
    then (do
      a0 ← load m (addr + 3)
      m1 ← store m (addr + 3) (bit_or (bit_and a0 0xfc) (value >> 8))
      store m1 (addr + 4) value)
    else some m

unfoldable pub raw_set_pixel_10b : Memory → ℕ → ℕ → ℕ → ℕ → ℕ → Option Memory
raw_set_pixel_10b m p row_bytes x y value =
    set_case_10b m (p + u32 (y * row_bytes) + u32 (x / 4 * 5)) (bit_and x 3) value

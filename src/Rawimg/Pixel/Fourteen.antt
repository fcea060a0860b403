-- ===== src/Rawimg/Pixel/Fourteen.antt =====
-- rawimg.c: 14-bit pixels, in blocks of 8 (little endian) and of 4 (big endian). The big endian
-- setter switches on `x % 8`, as the source does.
use chdkptp_jet_tx1_jet_nano.Common.{
  ℕ, ◌+◌, ◌*◌, ◌/◌, ◌%◌, bit_and, bit_or, Option, some, ◌==◌, if◌then◌else◌, u32, ◌<<◌, ◌>>◌,
  Memory, load, store, ◌>>=◌,
}

-- The `switch` of `raw_get_pixel_14l` on the pixel's place in the block at `addr`.
unfoldable pub get_case_14l : Memory → ℕ → ℕ → Option ℕ
get_case_14l m addr k =
    if k == 0
    then (do a ← load m (addr + 1); b ← load m (addr + 0); some (bit_or (a << 6) (b >> 2)))
    else if k == 1
    then (do
      a ← load m (addr + 0)
      b ← load m (addr + 3)
      c ← load m (addr + 2)
      some (bit_or (bit_or (bit_and a 0x03 << 12) (b << 4)) (c >> 4)))
    else if k == 2
    then (do
      a ← load m (addr + 2)
      b ← load m (addr + 5)
      c ← load m (addr + 4)
      some (bit_or (bit_or (bit_and a 0x0f << 10) (b << 2)) (c >> 6)))
    else if k == 3
    then (do a ← load m (addr + 4); b ← load m (addr + 7); some (bit_or (bit_and a 0x3f << 8) b))
    else if k == 4
    then (do a ← load m (addr + 6); b ← load m (addr + 9); some (bit_or (a << 6) (b >> 2)))
    else if k == 5
    then (do
      a ← load m (addr + 9)
      b ← load m (addr + 8)
      c ← load m (addr + 11)
      some (bit_or (bit_or (bit_and a 0x03 << 12) (b << 4)) (c >> 4)))
    else if k == 6
    then (do
      a ← load m (addr + 11)
      b ← load m (addr + 10)
      c ← load m (addr + 13)
      some (bit_or (bit_or (bit_and a 0x0f << 10) (b << 2)) (c >> 6)))
    else if k == 7
    then (do a ← load m (addr + 13); b ← load m (addr + 12); some (bit_or (bit_and a 0x3f << 8) b))
    else some 0

unfoldable pub raw_get_pixel_14l : Memory → ℕ → ℕ → ℕ → ℕ → Option ℕ
raw_get_pixel_14l m p row_bytes x y =
    get_case_14l m (p + u32 (y * row_bytes) + u32 (x / 8 * 14)) (x % 8)

-- The `switch` of `raw_set_pixel_14l`.
unfoldable pub set_case_14l : Memory → ℕ → ℕ → ℕ → Option Memory
set_case_14l m addr k value =
    if k == 0
    then (do
      a0 ← load m (addr + 0)
      m1 ← store m (addr + 0) (bit_or (bit_and a0 0x03) (value << 2))
      store m1 (addr + 1) (value >> 6))
    else if k == 1
    then (do
      a0 ← load m (addr + 0)
      m1 ← store m (addr + 0) (bit_or (bit_and a0 0xfc) (value >> 12))
      a1 ← load m1 (addr + 2)
      m2 ← store m1 (addr + 2) (bit_or (bit_and a1 0x0f) (value << 4))
      store m2 (addr + 3) (value >> 4))
    else if k == 2
    then (do
      a0 ← load m (addr + 2)
      m1 ← store m (addr + 2) (bit_or (bit_and a0 0xf0) (value >> 10))
      a1 ← load m1 (addr + 4)
      m2 ← store m1 (addr + 4) (bit_or (bit_and a1 0x3f) (value << 6))
      store m2 (addr + 5) (value >> 2))
    else if k == 3
    then (do
      a0 ← load m (addr + 4)
      m1 ← store m (addr + 4) (bit_or (bit_and a0 0xc0) (value >> 8))
      store m1 (addr + 7) value)
    else if k == 4
    then (do
      m1 ← store m (addr + 6) (value >> 6)
      a1 ← load m1 (addr + 9)
      store m1 (addr + 9) (bit_or (bit_and a1 0x03) (value << 2)))
    else if k == 5
    then (do
      m1 ← store m (addr + 8) (value >> 4)
      a1 ← load m1 (addr + 9)
      m2 ← store m1 (addr + 9) (bit_or (bit_and a1 0xfc) (value >> 12))
      a2 ← load m2 (addr + 11)
      store m2 (addr + 11) (bit_or (bit_and a2 0x0f) (value << 4)))
    else if k == 6
    then (do
      m1 ← store m (addr + 10) (value >> 2)
      a1 ← load m1 (addr + 11)
      m2 ← store m1 (addr + 11) (bit_or (bit_and a1 0xf0) (value >> 10))
      a2 ← load m2 (addr + 13)
      store m2 (addr + 13) (bit_or (bit_and a2 0x3f) (value << 6)))
    else if k == 7
    then (do
      m1 ← store m (addr + 12) value
      a1 ← load m1 (addr + 13)
      store m1 (addr + 13) (bit_or (bit_and a1 0xc0) (value >> 8)))
    else some m

unfoldable pub raw_set_pixel_14l : Memory → ℕ → ℕ → ℕ → ℕ → ℕ → Option Memory
raw_set_pixel_14l m p row_bytes x y value =
    set_case_14l m (p + u32 (y * row_bytes) + u32 (x / 8 * 14)) (x % 8) value

-- The `switch` of `raw_get_pixel_14b` on the pixel's place in the block at `addr`.
unfoldable pub get_case_14b : Memory → ℕ → ℕ → Option ℕ
get_case_14b m addr k =
    if k == 0
    then (do a ← load m (addr + 0); b ← load m (addr + 1); some (bit_or (a << 6) (b >> 2)))
    else if k == 1
    then (do
      a ← load m (addr + 1)
      b ← load m (addr + 2)
      c ← load m (addr + 3)
      some (bit_or (bit_or (bit_and a 0x03 << 12) (b << 4)) (c >> 4)))
    else if k == 2
    then (do
      a ← load m (addr + 3)
      b ← load m (addr + 4)
      c ← load m (addr + 5)
      some (bit_or (bit_or (bit_and a 0x0f << 10) (b << 2)) (c >> 6)))
    else if k == 3
    then (do a ← load m (addr + 5); b ← load m (addr + 6); some (bit_or (bit_and a 0x3f << 8) b))
    else some 0

unfoldable pub raw_get_pixel_14b : Memory → ℕ → ℕ → ℕ → ℕ → Option ℕ
raw_get_pixel_14b m p row_bytes x y =
    get_case_14b m (p + u32 (y * row_bytes) + u32 (x / 4 * 7)) (x % 4)

-- The `switch` of `raw_set_pixel_14b`.
unfoldable pub set_case_14b : Memory → ℕ → ℕ → ℕ → Option Memory
set_case_14b m addr k value =
    if k == 0
    then (do
      a0 ← load m (addr + 1)
      m1 ← store m (addr + 1) (bit_or (bit_and a0 0x03) (value << 2))
      store m1 (addr + 0) (value >> 6))
    else if k == 1
    then (do
      a0 ← load m (addr + 1)
      m1 ← store m (addr + 1) (bit_or (bit_and a0 0xfc) (value >> 12))
      a1 ← load m1 (addr + 3)
      m2 ← store m1 (addr + 3) (bit_or (bit_and a1 0x0f) (value << 4))
      store m2 (addr + 2) (value >> 4))
    else if k == 2
    then (do
      a0 ← load m (addr + 3)
      m1 ← store m (addr + 3) (bit_or (bit_and a0 0xf0) (value >> 10))
      a1 ← load m1 (addr + 5)
      m2 ← store m1 (addr + 5) (bit_or (bit_and a1 0x3f) (value << 6))
      store m2 (addr + 4) (value >> 2))
    else if k == 3
    then (do
      a0 ← load m (addr + 5)
      m1 ← store m (addr + 5) (bit_or (bit_and a0 0xc0) (value >> 8))
      store m1 (addr + 6) value)
    else some m

unfoldable pub raw_set_pixel_14b : Memory → ℕ → ℕ → ℕ → ℕ → ℕ → Option Memory
raw_set_pixel_14b m p row_bytes x y value =
    set_case_14b m (p + u32 (y * row_bytes) + u32 (x / 4 * 7)) (x % 8) value

-- ===== src/Rawimg/Pixel/Twelve.antt =====
-- rawimg.c: 12-bit pixels, in blocks of 4 (little endian) and of 2 (big endian).
use chdkptp_jet_tx1_jet_nano.Common.{
  ℕ, ◌+◌, ◌*◌, ◌/◌, bit_and, bit_or, Option, some, ◌==◌, if◌then◌else◌, u8, u32, ◌<<◌, ◌>>◌, Memory,
  load, store, ◌>>=◌,
}

-- The `switch` of `raw_get_pixel_12l` on the pixel's place in the block at `addr`.
unfoldable pub get_case_12l : Memory → ℕ → ℕ → Option ℕ
get_case_12l m addr k =
    if k == 0
    then (do a ← load m (addr + 1); b ← load m (addr + 0); some (bit_or (a << 4) (b >> 4)))
    else if k == 1
    then (do a ← load m (addr + 0); b ← load m (addr + 3); some (bit_or (bit_and a 0x0f << 8) b))
    else if k == 2
    then (do a ← load m (addr + 2); b ← load m (addr + 5); some (bit_or (a << 4) (b >> 4)))
    else if k == 3
    then (do a ← load m (addr + 5); b ← load m (addr + 4); some (bit_or (bit_and a 0x0f << 8) b))
    else some 0

unfoldable pub raw_get_pixel_12l : Memory → ℕ → ℕ → ℕ → ℕ → Option ℕ
raw_get_pixel_12l m p row_bytes x y =
    get_case_12l m (p + u32 (y * row_bytes) + u32 (x / 4 * 6)) (bit_and x 3)

-- The `switch` of `raw_set_pixel_12l`.
unfoldable pub set_case_12l : Memory → ℕ → ℕ → ℕ → Option Memory
set_case_12l m addr k value =
    if k == 0
    then (do
      a0 ← load m (addr + 0)
      m1 ← store m (addr + 0) (bit_or (bit_and a0 0x0f) (value << 4))
      store m1 (addr + 1) (value >> 4))
    else if k == 1
    then (do
      a0 ← load m (addr + 0)
      m1 ← store m (addr + 0) (bit_or (bit_and a0 0xf0) (value >> 8))
      store m1 (addr + 3) value)
    else if k == 2
    then (do
      m1 ← store m (addr + 2) (value >> 4)
      a1 ← load m1 (addr + 5)
      store m1 (addr + 5) (bit_or (bit_and a1 0x0f) (value << 4)))
    else if k == 3
    then (do
      m1 ← store m (addr + 4) value
      a1 ← load m1 (addr + 5)
      store m1 (addr + 5) (bit_or (bit_and a1 0xf0) (value >> 8)))
    else some m

unfoldable pub raw_set_pixel_12l : Memory → ℕ → ℕ → ℕ → ℕ → ℕ → Option Memory
raw_set_pixel_12l m p row_bytes x y value =
    set_case_12l m (p + u32 (y * row_bytes) + u32 (x / 4 * 6)) (bit_and x 3) value

-- The two branches of `raw_get_pixel_12b`.
unfoldable pub get_case_12b : Memory → ℕ → ℕ → Option ℕ
get_case_12b m addr k =
    if k == 0
    then (do a ← load m (addr + 0); b ← load m (addr + 1); some (bit_or (a << 4) (b >> 4)))
    else (do a ← load m (addr + 1); b ← load m (addr + 2); some (bit_or (bit_and a 0x0f << 8) b))

unfoldable pub raw_get_pixel_12b : Memory → ℕ → ℕ → ℕ → ℕ → Option ℕ
raw_get_pixel_12b m p row_bytes x y =
    get_case_12b m (p + u32 (y * row_bytes) + u32 (x / 2 * 3)) (bit_and x 1)

-- The `switch` of `raw_set_pixel_12b`, whose values are cut to a byte first.
unfoldable pub set_case_12b : Memory → ℕ → ℕ → ℕ → Option Memory
set_case_12b m addr k value =
    if k == 0
    then (do
      m1 ← store m (addr + 0) (u8 (value >> 4))
      a ← load m1 (addr + 1)
      store m1 (addr + 1) (bit_or (bit_and a 0x0f) (u8 (value << 4))))
    else if k == 1
    then (do
      a ← load m (addr + 1)
      m1 ← store m (addr + 1) (bit_or (bit_and a 0xf0) (u8 (value >> 8)))
      store m1 (addr + 2) (u8 value))
    else some m

unfoldable pub raw_set_pixel_12b : Memory → ℕ → ℕ → ℕ → ℕ → ℕ → Option Memory
raw_set_pixel_12b m p row_bytes x y value =
    set_case_12b m (p + u32 (y * row_bytes) + u32 (x / 2 * 3)) (bit_and x 1) value

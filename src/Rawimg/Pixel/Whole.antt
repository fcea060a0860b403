-- ===== src/Rawimg/Pixel/Whole.antt =====
-- rawimg.c: pixels of whole bytes. The host reads and writes an `unsigned short` little endian.
use chdkptp_jet_tx1_jet_nano.Common.{
  ℕ, ◌+◌, ◌*◌, ◌/◌, ◌%◌, bit_or, Option, some, u16, u32, ◌<<◌, ◌>>◌, Memory, load, store, ◌>>=◌,
}

unfoldable pub raw_get_pixel_8l : Memory → ℕ → ℕ → ℕ → ℕ → Option ℕ
raw_get_pixel_8l m p row_bytes x y = load m (p + u32 (y * row_bytes + x))

unfoldable pub raw_set_pixel_8l : Memory → ℕ → ℕ → ℕ → ℕ → ℕ → Option Memory
raw_set_pixel_8l m p row_bytes x y value = store m (p + u32 (y * row_bytes + x)) value

unfoldable pub raw_get_pixel_16l : Memory → ℕ → ℕ → ℕ → ℕ → Option ℕ
raw_get_pixel_16l m p row_bytes x y = do
  let addr = p + u32 (y * row_bytes) + u32 (x * 2)
  lo ← load m (addr + 0)
  hi ← load m (addr + 1)
  some (lo + hi * 256)

unfoldable pub raw_set_pixel_16l : Memory → ℕ → ℕ → ℕ → ℕ → ℕ → Option Memory
raw_set_pixel_16l m p row_bytes x y value = do
  let addr = p + u32 (y * row_bytes) + u32 (x * 2)
  m1 ← store m (addr + 0) (u16 value % 256)
  store m1 (addr + 1) (u16 value / 256)

unfoldable pub raw_get_pixel_16b : Memory → ℕ → ℕ → ℕ → ℕ → Option ℕ
raw_get_pixel_16b m p row_bytes x y = do
  hi ← load m (p + u32 (y * row_bytes + x * 2))
  lo ← load m (p + u32 (y * row_bytes + x * 2 + 1))
  some (bit_or (hi << 8) lo)

unfoldable pub raw_set_pixel_16b : Memory → ℕ → ℕ → ℕ → ℕ → ℕ → Option Memory
raw_set_pixel_16b m p row_bytes x y value = do
  m1 ← store m (p + u32 (y * row_bytes + x * 2)) (value >> 8)
  store m1 (p + u32 (y * row_bytes + x * 2 + 1)) value

-- ===== src/Rawimg/Laws/Interface.antt =====
-- What the image code may rely on of a raw format.
use chdkptp_jet_tx1_jet_nano.Common.{
  ℕ, ◌+◌, ◌*◌, ◌/◌, ◌%◌, ◌^◌, ◌<◌, ◌≤◌, ◌≡◌, some, Bool, false, true, not, ◌&&◌, ◌==◌, leb, arith,
  u32, Memory, IsBytes, Option,
}
use chdkptp_jet_tx1_jet_nano.Rawimg.Format.{RawFormat}
use chdkptp_jet_tx1_jet_nano.Rawimg.Layout.{Layout, block_number, pixel_of, position}
use chdkptp_jet_tx1_jet_nano.Rawimg.Laws.Packed.{IsPacked, IsReplaced, HasDigits}

-- The layout that a row of the format table stands for.
abbrev pub layout_of : RawFormat → Layout
layout_of fmt = record {
  bits = fmt.bpp;
  bytes = fmt.block_bytes;
  pixels = fmt.block_pixels;
  swapped = not (fmt.bpp == 8) && (fmt.endian == 0);
}

-- The pixels that `raw_set_pixel_14b` has no case for: it switches on `x % 8` over blocks of 4.
abbrev pub loses_writes : RawFormat → ℕ → Bool
loses_writes fmt x = (fmt.bpp == 14) && (fmt.endian == 1) && leb 4 (x % 8)

-- How the pixels of a row fall into blocks.
pub record IsGrid (f : Layout) : Type 0 where
  pub in_block : (x : ℕ) → x % f.pixels < f.pixels
  pub in_row : (x w : ℕ) → x < w → w % f.pixels ≡ 0 → x / f.pixels < w / f.pixels
  pub place : (x x' : ℕ) → x / f.pixels ≡ x' / f.pixels → x % f.pixels ≡ x' % f.pixels → x ≡ x'
  pub row_bytes : (w : ℕ) → w % f.pixels ≡ 0 → w * f.bits / 8 ≡ w / f.pixels * f.bytes
  pub depth : 2 ^ f.bits ≤ 2 ^ 16
  pub nonempty : 0 < f.bytes
  pub in_bytes : (i : ℕ) → i < f.bytes → position f.swapped i < f.bytes
  pub next_row :
      (x w : ℕ)
      → w % f.pixels ≡ 0
      → ((w + x) / f.pixels ≡ w / f.pixels + x / f.pixels) × ((w + x) % f.pixels ≡ x % f.pixels)

-- The offset of the block that holds pixel `x` of row `y`.
abbrev pub block_at : RawFormat → ℕ → ℕ → ℕ → ℕ → ℕ
block_at fmt p row_bytes x y = p + y * row_bytes + x / fmt.block_pixels * fmt.block_bytes

pub record PixelLaws (fmt : RawFormat) : Type 0 where
  pub digits : HasDigits (layout_of fmt)
  pub grid : IsGrid (layout_of fmt)
  pub get_lem :
      (m : Memory) (p row_bytes x y : ℕ)
      → IsBytes m
      → m.size < 2 ^ 32
      → block_at fmt p row_bytes x y + fmt.block_bytes ≤ m.size
      → fmt.get_pixel m p row_bytes x y
        ≡ some (
            pixel_of
              (layout_of fmt)
              (block_number (layout_of fmt) m (block_at fmt p row_bytes x y))
              (x % fmt.block_pixels))
  pub set_lem :
      (m : Memory) (p row_bytes x y v : ℕ)
      → IsBytes m
      → m.size < 2 ^ 32
      → block_at fmt p row_bytes x y + fmt.block_bytes ≤ m.size
      → v < 2 ^ fmt.bpp
      → loses_writes fmt x ≡ false
      → IsReplaced
          (layout_of fmt)
          m
          (block_at fmt p row_bytes x y)
          (x % fmt.block_pixels)
          v
          (fmt.set_pixel m p row_bytes x y v)
  pub lost_lem :
      (m : Memory) (p row_bytes x y v : ℕ)
      → loses_writes fmt x ≡ true
      → fmt.set_pixel m p row_bytes x y v ≡ some m

pub no_wrap : (a : ℕ) → a < 2 ^ 32 → u32 a ≡ a
no_wrap a h = omega arith

-- A format whose pixel functions only pick the block and the place in it.
pub packed-PixelLaws :
    (fmt : RawFormat) (get : Memory → ℕ → ℕ → Option ℕ) (set : Memory → ℕ → ℕ → ℕ → Option Memory)
    → IsPacked (layout_of fmt) get set
    → HasDigits (layout_of fmt)
    → IsGrid (layout_of fmt)
    → ((m : Memory) (p row_bytes x y : ℕ)
        → fmt.get_pixel m p row_bytes x y
          ≡ get m
              (p + u32 (y * row_bytes) + u32 (x / fmt.block_pixels * fmt.block_bytes))
              (x % fmt.block_pixels))
    → ((m : Memory) (p row_bytes x y v : ℕ)
        → loses_writes fmt x ≡ false
        → fmt.set_pixel m p row_bytes x y v
          ≡ set m
              (p + u32 (y * row_bytes) + u32 (x / fmt.block_pixels * fmt.block_bytes))
              (x % fmt.block_pixels)
              v)
    → ((m : Memory) (p row_bytes x y v : ℕ)
        → loses_writes fmt x ≡ true
        → fmt.set_pixel m p row_bytes x y v ≡ some m)
    → PixelLaws fmt
packed-PixelLaws fmt get set packed digits grid getter setter lost = record {
  digits = digits;
  grid = grid;
  get_lem = λ m p row_bytes x y b small fits.
      rw
        (
          getter m p row_bytes x y,
          no_wrap (y * row_bytes) (omega arith),
          no_wrap (x / fmt.block_pixels * fmt.block_bytes) (omega arith),
        )
        (packed.get_digit m (block_at fmt p row_bytes x y) (x % fmt.block_pixels) b fits
          (grid.in_block x));
  set_lem = λ m p row_bytes x y v b small fits hv kept.
      rw
        (
          setter m p row_bytes x y v kept,
          no_wrap (y * row_bytes) (omega arith),
          no_wrap (x / fmt.block_pixels * fmt.block_bytes) (omega arith),
        )
        (packed.set_digit m (block_at fmt p row_bytes x y) (x % fmt.block_pixels) v b fits
          (grid.in_block x) hv);
  lost_lem = lost;
}

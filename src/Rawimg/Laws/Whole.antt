-- ===== src/Rawimg/Laws/Whole.antt =====
-- The 8-bit and 16-bit formats: a block is one pixel.
use chdkptp_jet_tx1_jet_nano.Common.{
  ℕ, ◌+◌, ◌*◌, ◌/◌, ◌%◌, ◌^◌, ◌<◌, ◌≤◌, ◌≡◌, some, arith, ap, [], ◌∷◌, Memory, IsBytes, store, put,
  cell-put_at, store_lem, u16, u32, join_8_8,
}
use chdkptp_jet_tx1_jet_nano.Rawimg.Pixel.{
  raw_get_pixel_8l, raw_set_pixel_8l, raw_get_pixel_16l, raw_set_pixel_16l, raw_get_pixel_16b,
  raw_set_pixel_16b,
}
use chdkptp_jet_tx1_jet_nano.Rawimg.Layout.{pixel_of, block_number}
use chdkptp_jet_tx1_jet_nano.Rawimg.Format.{raw_8l, raw_16l, raw_16b}
use chdkptp_jet_tx1_jet_nano.Rawimg.Laws.Packed.{
  IsReplaced, HasDigits, patch-IsReplaced, cell_bounds, load_at,
}
use chdkptp_jet_tx1_jet_nano.Rawimg.Laws.Interface.{PixelLaws, IsGrid, layout_of}

raw_8l-HasDigits : HasDigits (layout_of raw_8l)
raw_8l-HasDigits = record { digit = λ b b' v k k' hk hk' hv e. ground (arith) }

raw_16l-HasDigits : HasDigits (layout_of raw_16l)
raw_16l-HasDigits = record { digit = λ b b' v k k' hk hk' hv e. ground (arith) }

raw_8l-IsGrid : IsGrid (layout_of raw_8l)
raw_8l-IsGrid = record {
  in_block = λ x. omega arith;
  in_row = λ x w h e. omega arith;
  place = λ x x' e e'. omega arith;
  row_bytes = λ w e. omega arith;
  depth = omega arith;
  nonempty = omega arith;
  in_bytes = λ i h. ground arith;
  next_row = λ x w e. omega arith;
}

raw_16l-IsGrid : IsGrid (layout_of raw_16l)
raw_16l-IsGrid = record {
  in_block = λ x. omega arith;
  in_row = λ x w h e. omega arith;
  place = λ x x' e e'. omega arith;
  row_bytes = λ w e. omega arith;
  depth = omega arith;
  nonempty = omega arith;
  in_bytes = λ i h. ground arith;
  next_row = λ x w e. omega arith;
}

-- A whole pixel is the first of its block.
first : (x : ℕ) → x % 1 ≡ 0
first x = omega arith

module _ (m : Memory) (p row_bytes x y : ℕ) (b : IsBytes m) (small : m.size < 2 ^ 32) where
  index_8 :
      p + y * row_bytes + x / 1 * 1 + 1 ≤ m.size
      → p + u32 (y * row_bytes + x) ≡ p + y * row_bytes + x / 1 * 1 + 0
  index_8 fits = omega arith

  get_8l :
      p + y * row_bytes + x / 1 * 1 + 1 ≤ m.size
      → raw_get_pixel_8l m p row_bytes x y
        ≡ some (
            pixel_of
              (layout_of raw_8l)
              (block_number (layout_of raw_8l) m (p + y * row_bytes + x / 1 * 1))
              (x % 1))
  unfolding raw_get_pixel_8l
  get_8l fits =
      rw (index_8 fits, load_at m (p + y * row_bytes + x / 1 * 1) 0 1 fits (omega arith), first x)
        (ap some (omega (arith, b (p + y * row_bytes + x / 1 * 1 + 0))))

  set_8l :
      (v : ℕ)
      → p + y * row_bytes + x / 1 * 1 + 1 ≤ m.size
      → v < 2 ^ 8
      → IsReplaced
          (layout_of raw_8l)
          m
          (p + y * row_bytes + x / 1 * 1)
          (x % 1)
          v
          (raw_set_pixel_8l m p row_bytes x y v)
  set_8l v fits hv = rw (first x) (
      patch-IsReplaced (layout_of raw_8l) m (p + y * row_bytes + x / 1 * 1) 0 v ((0, v) ∷ [])
        (omega arith) b
        (unfold raw_set_pixel_8l in
          rw (index_8 fits, store_lem m (p + y * row_bytes + x / 1 * 1 + 0) v (omega arith)))
        (simp cell-put_at (omega (arith, b (p + y * row_bytes + x / 1 * 1 + 0)))))

pub raw_8l-PixelLaws : PixelLaws raw_8l
raw_8l-PixelLaws = record {
  digits = raw_8l-HasDigits;
  grid = raw_8l-IsGrid;
  get_lem = get_8l;
  set_lem = λ m p row_bytes x y v b small fits hv kept. set_8l m p row_bytes x y b small v fits hv;
  lost_lem = λ m p row_bytes x y v lost. absurd (cc);
}

module _ (m : Memory) (p row_bytes x y : ℕ) (b : IsBytes m) (small : m.size < 2 ^ 32)
    (fits : p + y * row_bytes + x / 1 * 2 + 2 ≤ m.size) where
  abbrev base : ℕ
  base = p + y * row_bytes + x / 1 * 2

  index_16l : p + u32 (y * row_bytes) + u32 (x * 2) ≡ base
  index_16l = omega arith

  index_16b_0 : p + u32 (y * row_bytes + x * 2) ≡ base + 0
  index_16b_0 = omega arith

  index_16b_1 : p + u32 (y * row_bytes + x * 2 + 1) ≡ base + 1
  index_16b_1 = omega arith

  get_16l :
      raw_get_pixel_16l m p row_bytes x y
      ≡ some (pixel_of (layout_of raw_16l) (block_number (layout_of raw_16l) m base) (x % 1))
  unfolding raw_get_pixel_16l
  get_16l =
      rw
        (
          index_16l,
          load_at m base 0 2 fits (omega arith),
          load_at m base 1 2 fits (omega arith),
          first x,
        )
        (ap some (omega (arith, cell_bounds m base 2 b)))

  get_16b :
      raw_get_pixel_16b m p row_bytes x y
      ≡ some (pixel_of (layout_of raw_16b) (block_number (layout_of raw_16b) m base) (x % 1))
  unfolding raw_get_pixel_16b
  get_16b =
      rw
        (
          index_16b_0,
          index_16b_1,
          load_at m base 0 2 fits (omega arith),
          load_at m base 1 2 fits (omega arith),
          join_8_8 (m.cell (base + 0)) (m.cell (base + 1)) (b _) (b _),
          first x,
        )
        (ap some (omega (arith, cell_bounds m base 2 b)))

  set_16l :
      (v : ℕ)
      → v < 2 ^ 16
      → IsReplaced (layout_of raw_16l) m base (x % 1) v (raw_set_pixel_16l m p row_bytes x y v)
  set_16l v hv = rw (first x) (
      patch-IsReplaced (layout_of raw_16l) m base 0 v ((0, u16 v % 256) ∷ (1, u16 v / 256) ∷ [])
        (omega arith) b (unfold raw_set_pixel_16l store put in rw index_16l (ground arith))
        (simp cell-put_at (omega (arith, cell_bounds m base 2 b))))

  set_16b :
      (v : ℕ)
      → v < 2 ^ 16
      → IsReplaced (layout_of raw_16b) m base (x % 1) v (raw_set_pixel_16b m p row_bytes x y v)
  set_16b v hv = rw (first x) (
      patch-IsReplaced (layout_of raw_16b) m base 0 v ((0, v / 2 ^ 8) ∷ (1, v) ∷ []) (omega arith) b
        (unfold raw_set_pixel_16b store put in rw (index_16b_0, index_16b_1) (ground arith))
        (simp cell-put_at (omega (arith, cell_bounds m base 2 b))))

pub raw_16l-PixelLaws : PixelLaws raw_16l
raw_16l-PixelLaws = record {
  digits = raw_16l-HasDigits;
  grid = raw_16l-IsGrid;
  get_lem = get_16l;
  set_lem = λ m p row_bytes x y v b small fits hv kept. set_16l m p row_bytes x y b small fits v hv;
  lost_lem = λ m p row_bytes x y v lost. absurd (cc);
}

pub raw_16b-PixelLaws : PixelLaws raw_16b
raw_16b-PixelLaws = record {
  digits = record { digit = raw_16l-HasDigits.digit };
  grid = record {
    in_block = raw_16l-IsGrid.in_block;
    in_row = raw_16l-IsGrid.in_row;
    place = raw_16l-IsGrid.place;
    row_bytes = raw_16l-IsGrid.row_bytes;
    depth = omega arith;
    nonempty = omega arith;
    in_bytes = λ i h. h;
    next_row = raw_16l-IsGrid.next_row;
  };
  get_lem = get_16b;
  set_lem = λ m p row_bytes x y v b small fits hv kept. set_16b m p row_bytes x y b small fits v hv;
  lost_lem = λ m p row_bytes x y v lost. absurd (cc);
}

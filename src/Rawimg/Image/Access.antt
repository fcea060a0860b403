-- ===== src/Rawimg/Image/Access.antt =====
-- The single-pixel methods on an image that is bound to its buffer.
use native.Mathlib.Nat.{le_refl}
use native.Mathlib.Decide.{ℕ_discrete}
use chdkptp_jet_tx1_jet_nano.Common.{
  ℕ, zero, suc, ap₂, ◌+◌, ◌*◌, ◌/◌, ◌%◌, ◌^◌, ◌≤◌, ◌<◌, ◌≡◌, ◌⊎◌, inl, inr, refl, arith, some,
  Memory, IsBytes,
}
use chdkptp_jet_tx1_jet_nano.Rawimg.Layout.{Layout, block_number, pixel_of, big, stream, position}
use chdkptp_jet_tx1_jet_nano.Rawimg.Laws.Interface.{PixelLaws, layout_of, block_at}
use chdkptp_jet_tx1_jet_nano.Rawimg.Format.{rawimg_find_format}
use chdkptp_jet_tx1_jet_nano.Rawimg.Laws.Formats.{rawimg_find_format-PixelLaws}
use chdkptp_jet_tx1_jet_nano.Rawimg.Image.{RawImage, image_get}
use chdkptp_jet_tx1_jet_nano.Rawimg.Image.Grid.{block_index_injective, blocks_apart, block_in_rows}

-- An image of a format of the table, whose rows are whole blocks and lie inside the buffer.
pub record IsImage (img : RawImage) (m : Memory) : Type 0 where
  pub known : (k : ℕ × ℕ) × (rawimg_find_format k.0 k.1 ≡ some img.fmt)
  pub whole_blocks : img.width % img.fmt.block_pixels ≡ 0
  pub row : img.row_bytes ≡ img.width / img.fmt.block_pixels * img.fmt.block_bytes
  pub fits : img.base + img.row_bytes * img.height ≤ m.size
  pub small : m.size < 2 ^ 32

pub laws_of : {img : RawImage} {m : Memory} → IsImage img m → PixelLaws img.fmt
laws_of v = rawimg_find_format-PixelLaws v.known.0.0 v.known.0.1 v.known.1

-- The offset of the block that holds a pixel, and the pixel as the layout reads it.
abbrev pub block_of : RawImage → ℕ → ℕ → ℕ
block_of img x y = block_at img.fmt img.base img.row_bytes x y

abbrev pub pixel_at : RawImage → Memory → ℕ → ℕ → ℕ
pixel_at img m x y =
    pixel_of (layout_of img.fmt) (block_number (layout_of img.fmt) m (block_of img x y))
      (x % img.fmt.block_pixels)

module _ (img : RawImage) (m : Memory) (v : IsImage img m) where
  pub block_fits :
      (x y : ℕ) → x < img.width → y < img.height → block_of img x y + img.fmt.block_bytes ≤ m.size
  block_fits x y hx hy =
      let n = img.fmt.block_bytes in
      let w = img.width / img.fmt.block_pixels in
      let inside : y * img.row_bytes + x / img.fmt.block_pixels * n + n
          ≤ img.row_bytes * img.height =
        rw v.row (
          block_in_rows n w img.height y (x / img.fmt.block_pixels)
            ((laws_of v).grid.in_row x img.width hx v.whole_blocks) hy) in
      omega (arith, v.fits)

  pub image_get_lem :
      IsBytes m
      → (x y : ℕ) → x < img.width
      → y < img.height
      → image_get img m x y ≡ some (pixel_at img m x y)
  image_get_lem b x y hx hy =
      (laws_of v).get_lem m img.base img.row_bytes x y b v.small (block_fits x y hx hy)

-- Two blocks are read alike where the cells of the block agree.
module _ (f : Layout) (m m' : Memory) (addr : ℕ)
    (inside : (i : ℕ) → i < f.bytes → position f.swapped i < f.bytes)
    (same : (j : ℕ) → addr ≤ j → j < addr + f.bytes → m'.cell j ≡ m.cell j) where
  big_same :
      (n : ℕ)
      → n ≤ f.bytes
      → big (stream f.swapped m'.cell addr) n ≡ big (stream f.swapped m.cell addr) n
  big_same zero h = refl
  big_same (suc n) h =
      let p = position f.swapped n in
      let below : p < f.bytes = inside n h in
      ap₂ (λ a c. a * 256 + c) (big_same n (omega arith))
        (same (addr + p) (omega arith) (omega arith))

  pub block_number_same : block_number f m' addr ≡ block_number f m addr
  block_number_same = big_same f.bytes (le_refl _)

-- Same block and place only for the same pixel.
module _ (img : RawImage) (m : Memory) (v : IsImage img m) (x y x' y' : ℕ) (hx : x < img.width)
    (hx' : x' < img.width) where
  abbrev n : ℕ
  n = img.fmt.block_bytes

  abbrev w : ℕ
  w = img.width / img.fmt.block_pixels

  abbrev q : ℕ → ℕ
  q k = k / img.fmt.block_pixels

  block_of_index : (a b : ℕ) → block_of img a b ≡ img.base + (b * w + q a) * n
  block_of_index a b = rw v.row (omega arith)

  pub apart_or_same :
      ((block_of img x y + n ≤ block_of img x' y') ⊎ (block_of img x' y' + n ≤ block_of img x y))
      ⊎ ((y ≡ y') × (q x ≡ q x'))
  apart_or_same = elim (ℕ_discrete (y * w + q x) (y' * w + q x')) [
    | yes e ↦ inr (
        block_index_injective w y (q x) y' (q x')
          ((laws_of v).grid.in_row x img.width hx v.whole_blocks)
          ((laws_of v).grid.in_row x' img.width hx' v.whole_blocks) e)
    | no ne ↦ inl (
        omega (
          arith,
          blocks_apart n (y * w + q x) (y' * w + q x') ne,
          block_of_index x y,
          block_of_index x' y',
        ))
  ]

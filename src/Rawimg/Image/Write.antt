-- ===== src/Rawimg/Image/Write.antt =====
-- Writing one pixel of an image.
use native.Mathlib.Decide.{ℕ_discrete}
use chdkptp_jet_tx1_jet_nano.Common.{
  ℕ, ◌+◌, ◌*◌, ◌/◌, ◌%◌, ◌^◌, ◌≤◌, ◌<◌, ◌≡◌, ◌⊎◌, inl, inr, refl, arith, ◌∙◌, sym, ap₂, some,
  Option, false, not, ◌&&◌, ◌==◌, if◌then◌else◌, Memory, IsBytes, Bool-cases,
}
use chdkptp_jet_tx1_jet_nano.Rawimg.Layout.{block_number}
use chdkptp_jet_tx1_jet_nano.Rawimg.Laws.Packed.{IsReplaced}
use chdkptp_jet_tx1_jet_nano.Rawimg.Laws.Interface.{layout_of, loses_writes}
use chdkptp_jet_tx1_jet_nano.Rawimg.Image.{RawImage, image_set}
use chdkptp_jet_tx1_jet_nano.Rawimg.Image.Access.{
  IsImage, laws_of, block_of, pixel_at, block_fits, block_number_same, apart_or_same,
}

-- The result `r` is the image's memory with pixel (x, y) set to `v`, where the format's setter has a
-- case for it, and every other pixel as before.
pub record WritesPixel (img : RawImage) (m : Memory) (x y v : ℕ) (r : Option Memory) : Type 0 where
  pub out : Memory
  pub returns : r ≡ some out
  pub same_size : out.size ≡ m.size
  pub bytes : IsBytes out
  pub pixel :
      (x' y' : ℕ)
      → x' < img.width
      → y' < img.height
      → pixel_at img out x' y' ≡ (
          if ((x == x') && (y == y')) && not (loses_writes img.fmt x)
          then v
          else pixel_at img m x' y')

-- An image stays one in another memory of the same size.
pub IsImage-same_size :
    (img : RawImage) (m m' : Memory) → m'.size ≡ m.size → IsImage img m → IsImage img m'
IsImage-same_size img m m' e v = record {
  known = v.known;
  whole_blocks = v.whole_blocks;
  row = v.row;
  fits = rw e v.fits;
  small = rw e v.small;
}

module _ (img : RawImage) (m : Memory) (iv : IsImage img m) (x y v : ℕ) (hx : x < img.width)
    (hy : y < img.height) where
  module _ (r : Option Memory)
      (rep : IsReplaced (layout_of img.fmt) m (block_of img x y) (x % img.fmt.block_pixels) v r)
      (x' y' : ℕ) where
    -- Another block is left alone, and holds another pixel.
    written_apart :
        (block_of img x y + img.fmt.block_bytes ≤ block_of img x' y')
          ⊎ (block_of img x' y' + img.fmt.block_bytes ≤ block_of img x y)
        → pixel_at img rep.out x' y' ≡ (if (x == x') && (y == y') then v else pixel_at img m x' y')
    written_apart apart =
        rw
          (block_number_same (layout_of img.fmt) m rep.out (block_of img x' y')
            (laws_of iv).grid.in_bytes (λ j lo hi. rep.outside j (omega arith)))
          (rw other)
      where
        other : ((x == x') && (y == y')) ≡ false
        other = elim (ℕ_discrete x x') [
          | yes e ↦ elim (ℕ_discrete y y') [
            | yes e' ↦ absurd (omega (arith, ap₂ (block_of img) e e', (laws_of iv).grid.nonempty))
            | no ne ↦ ground arith
          ]
          | no ne ↦ ground arith
        ]

    -- In the same block one digit is replaced.
    written_same :
        v < 2 ^ img.fmt.bpp
        → (y ≡ y') × (x / img.fmt.block_pixels ≡ x' / img.fmt.block_pixels)
        → pixel_at img rep.out x' y' ≡ (if (x == x') && (y == y') then v else pixel_at img m x' y')
    written_same hv same =
        let p = img.fmt.block_pixels in
        let f = layout_of img.fmt in
        let e : block_of img x' y' ≡ block_of img x y =
          ap₂ (λ a c. img.base + a * img.row_bytes + c * img.fmt.block_bytes) (sym same.0)
            (sym same.1) in
        let digit =
          (laws_of iv).digits.digit (block_number f m (block_of img x y))
            (block_number f rep.out (block_of img x y)) v (x % p) (x' % p)
            ((laws_of iv).grid.in_block x) ((laws_of iv).grid.in_block x') hv rep.number in
        rw e (digit ∙ ground (arith, (laws_of iv).grid.place x x'))

  pub written :
      (r : Option Memory)
      → (rep : IsReplaced (layout_of img.fmt) m (block_of img x y) (x % img.fmt.block_pixels) v r)
      → v < 2 ^ img.fmt.bpp
      → (x' y' : ℕ) → x' < img.width
      → pixel_at img rep.out x' y' ≡ (if (x == x') && (y == y') then v else pixel_at img m x' y')
  written r rep hv x' y' hx' = elim (apart_or_same img m iv x y x' y' hx hx') [
    | inl apart ↦ written_apart r rep x' y' apart
    | inr same ↦ written_same r rep x' y' hv same
  ]

  -- What the format's setter does to the image.
  pub image_set-WritesPixel :
      IsBytes m → v < 2 ^ img.fmt.bpp → WritesPixel img m x y v (image_set img m x y v)
  image_set-WritesPixel b hv = elim (Bool-cases (loses_writes img.fmt x)) [
    | inl lost ↦ record {
      out = m;
      returns = (laws_of iv).lost_lem m img.base img.row_bytes x y v lost;
      same_size = refl;
      bytes = b;
      pixel = λ x' y' hx' hy'. ground (arith, lost);
    }
    | inr kept ↦ stored kept (
        (laws_of iv).set_lem m img.base img.row_bytes x y v b iv.small
          (block_fits img m iv x y hx hy) hv kept)
  ]
    where
      stored :
          loses_writes img.fmt x ≡ false
          → IsReplaced
              (layout_of img.fmt)
              m
              (block_of img x y)
              (x % img.fmt.block_pixels)
              v
              (image_set img m x y v)
          → WritesPixel img m x y v (image_set img m x y v)
      stored kept rep = record {
        out = rep.out;
        returns = rep.returns;
        same_size = rep.same_size;
        bytes = rep.bytes;
        pixel = λ x' y' hx' hy'.
            written (image_set img m x y v) rep hv x' y' hx' ∙ ground (arith, kept);
      }

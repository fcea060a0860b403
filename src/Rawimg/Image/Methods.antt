-- ===== src/Rawimg/Image/Methods.antt =====
-- The Lua methods `get_pixel` and `set_pixel`.
use mathlib.Core.Path.{subst}
use chdkptp_jet_tx1_jet_nano.Common.{
  ℕ, ◌+◌, ◌*◌, ◌%◌, ◌^◌, ◌≤◌, ◌<◌, ◌≡◌, arith, ap, some, none, false, not, ◌&&◌, ◌==◌, ltb,
  if◌then◌else◌, Memory, IsBytes,
}
use chdkptp_jet_tx1_jet_nano.Rawimg.Layout.{block_number, pixel_of}
use chdkptp_jet_tx1_jet_nano.Rawimg.Laws.Formats.{rawimg_find_format-PixelLaws}
use chdkptp_jet_tx1_jet_nano.Rawimg.Format.{RawFormat, rawimg_find_format}
use chdkptp_jet_tx1_jet_nano.Rawimg.Laws.Interface.{loses_writes, layout_of, block_at}
use chdkptp_jet_tx1_jet_nano.Rawimg.Laws.Packed.{IsReplaced}
use chdkptp_jet_tx1_jet_nano.Rawimg.Image.{
  RawImage, image_set, rawimg_lua_get_pixel, rawimg_lua_set_pixel,
}
use chdkptp_jet_tx1_jet_nano.Rawimg.Image.Access.{
  IsImage, laws_of, image_get_lem, pixel_at, block_of, block_fits,
}
use chdkptp_jet_tx1_jet_nano.Rawimg.Image.Write.{image_set-WritesPixel, IsImage-same_size, written}

-- Whatever format the table search returns, its getter reads the block that holds the pixel, inside
-- the buffer only, and returns the digit of the block's number that the bit-stream layout has there.
pub get_pixel-layout :
    (bpp endian : ℕ) {fmt : RawFormat} (m : Memory) (p row_bytes x y : ℕ)
    → rawimg_find_format bpp endian ≡ some fmt
    → IsBytes m
    → m.size < 2 ^ 32
    → block_at fmt p row_bytes x y + fmt.block_bytes ≤ m.size
    → fmt.get_pixel m p row_bytes x y
      ≡ some (
          pixel_of
            (layout_of fmt)
            (block_number (layout_of fmt) m (block_at fmt p row_bytes x y))
            (x % fmt.block_pixels))
get_pixel-layout bpp endian m p row_bytes x y found b small fits =
    (rawimg_find_format-PixelLaws bpp endian found).get_lem m p row_bytes x y b small fits

-- On an image bound to a buffer of bytes, `get_pixel` returns the pixel of the layout, or nil out of
-- bounds; it never reads outside the buffer.
pub rawimg_lua_get_pixel_lem :
    (img : RawImage) (m : Memory) (x y : ℕ)
    → IsImage img m
    → IsBytes m
    → rawimg_lua_get_pixel img m x y
      ≡ some (if ltb x img.width && ltb y img.height then some (pixel_at img m x y) else none)
unfolding rawimg_lua_get_pixel
rawimg_lua_get_pixel_lem img m x y iv b = ground (arith, image_get_lem img m iv b x y)

-- On an image bound to a buffer of bytes, writing a value that fits the format at a pixel in bounds
-- returns, and afterwards `get_pixel` gives that value there, unless the big endian 14-bit setter
-- has no case for the pixel, and the old value, or nil, everywhere else.
pub get_pixel-set_pixel :
    (img : RawImage) (m : Memory) (x y v : ℕ)
    → IsImage img m
    → IsBytes m
    → x < img.width
    → y < img.height
    → v < 2 ^ img.fmt.bpp
    → (m' : Memory) × (rawimg_lua_set_pixel img m x y v ≡ some m')
      × IsImage img m'
      × IsBytes m'
      × ((x' y' : ℕ)
          → rawimg_lua_get_pixel img m' x' y' ≡ (
              if ((x == x') && (y == y')) && not (loses_writes img.fmt x)
              then some (some v)
              else rawimg_lua_get_pixel img m x' y'))
get_pixel-set_pixel img m x y v iv b hx hy hv =
    let w = image_set-WritesPixel img m iv x y v hx hy b hv in
    let iv' = IsImage-same_size img m w.out w.same_size iv in
    (
      w.out,
      unfold rawimg_lua_set_pixel in ground (arith, w.returns),
      iv',
      w.bytes,
      λ x' y'. ground (
        arith,
        rawimg_lua_get_pixel_lem img w.out x' y' iv' w.bytes,
        rawimg_lua_get_pixel_lem img m x' y' iv b,
        w.pixel x' y',
      ),
    )

-- `set_pixel` tests that x or y is in bounds, not that both are. On an image bound to a buffer of
-- bytes, one row too far to the right, at (width + x, y) with a row below, it returns and writes pixel
-- (x, y + 1) of the next row, and no other, if the value fits and the setter has a case there.
pub set_pixel_past_row :
    (img : RawImage) (m : Memory) (x y v : ℕ)
    → IsImage img m
    → IsBytes m
    → x < img.width
    → y + 1 < img.height
    → v < 2 ^ img.fmt.bpp
    → loses_writes img.fmt (img.width + x) ≡ false
    → (x' y' : ℕ) → x' < img.width
    → y' < img.height
    → (m' : Memory) × (rawimg_lua_set_pixel img m (img.width + x) y v ≡ some m')
      × (pixel_at img m' x' y' ≡ (if (x == x') && ((y + 1) == y') then v else pixel_at img m x' y'))
set_pixel_past_row img m x y v iv b hx hy hv kept x' y' hx' hy' =
    let p = img.fmt.block_pixels in
    let f = layout_of img.fmt in
    let wrapped = (laws_of iv).grid.next_row x img.width iv.whole_blocks in
    let r = image_set img m (img.width + x) y v in
    let there : block_of img (img.width + x) y ≡ block_of img x (y + 1) = omega (
      arith,
      ap (λ (t : ℕ). t * img.fmt.block_bytes) wrapped.0,
      ap (λ (t : ℕ). y * t) iv.row,
      iv.row,
    ) in
    let fits = block_fits img m iv x (y + 1) hx hy in
    let stored : IsReplaced f m (block_of img (img.width + x) y) ((img.width + x) % p) v r =
      (laws_of iv).set_lem m img.base img.row_bytes (img.width + x) y v b iv.small (omega arith) hv
        kept in
    let rep : IsReplaced f m (block_of img x (y + 1)) (x % p) v r =
      subst (λ a. IsReplaced f m a (x % p) v r) there
        (subst (λ k. IsReplaced f m (block_of img (img.width + x) y) k v r) wrapped.1 stored) in
    (
      rep.out,
      unfold rawimg_lua_set_pixel in ground (arith, rep.returns),
      written img m iv x (y + 1) v hx hy r rep hv x' y' hx',
    )

-- ===== src/Rawimg/Convert/Copy.antt =====
-- `convert` as a whole: it returns an image of the new format in a buffer of its own.
use chdkptp_jet_tx1_jet_nano.Common.{
  Option, ℕ, ◌*◌, ◌/◌, ◌%◌, ◌^◌, ◌≤◌, ◌<◌, ◌≡◌, refl, ap, some, false, arith, Memory, IsBytes, u32,
}
use chdkptp_jet_tx1_jet_nano.Common.Results.{ok}
use chdkptp_jet_tx1_jet_nano.Rawimg.Format.{RawFormat, rawimg_find_format}
use chdkptp_jet_tx1_jet_nano.Rawimg.Laws.Interface.{loses_writes, no_wrap}
use chdkptp_jet_tx1_jet_nano.Rawimg.Laws.Formats.{
  rawimg_find_format-PixelLaws, rawimg_find_format-bpp,
}
use chdkptp_jet_tx1_jet_nano.Rawimg.Image.{RawImage}
use chdkptp_jet_tx1_jet_nano.Rawimg.Image.Access.{IsImage, pixel_at}
use chdkptp_jet_tx1_jet_nano.Rawimg.Convert.{
  Options, shift_of, shift_value, shift_black, convert_rows, destination, rawimg_lua_convert,
}
use chdkptp_jet_tx1_jet_nano.Rawimg.Convert.Laws.{IsCopied, convert_rows-IsCopied}

-- The new buffer holds the rows of the new image.
rows_fit : (w h bpp r : ℕ) → w * bpp / 8 ≡ r → r * h ≤ w * h * bpp / 8
rows_fit w h bpp r e = omega (arith, scaled h (8 * r) (w * bpp) (omega arith))
  where
    scaled : (h a b : ℕ) → a ≤ b → a * h ≤ b * h
    scaled h a b le = grind arith

module _ (negative : ℕ → ℕ → ℕ) (malloc : ℕ → Option Memory) (img : RawImage) (m : Memory)
    (o : Options) where
  abbrev new_image : RawFormat → RawImage
  new_image fmt = record img {
    fmt = fmt;
    row_bytes = u32 (img.width * o.bpp) / 8;
    black_level = shift_black negative (shift_of img o) img.black_level;
    base = 0;
  }

  abbrev pub new_size : ℕ
  new_size = u32 (u32 (img.width * img.height) * o.bpp) / 8

  new_image-IsImage :
      (fmt : RawFormat) (dest : Memory)
      → dest.size ≡ new_size
      → rawimg_find_format o.bpp o.endian ≡ some fmt
      → img.width % fmt.block_pixels ≡ 0
      → img.width * o.bpp < 2 ^ 32
      → img.width * img.height < 2 ^ 32
      → img.width * img.height * o.bpp < 2 ^ 32
      → IsImage (new_image fmt) dest
  new_image-IsImage fmt dest sized found whole small_row small_area small =
      let laws = rawimg_find_format-PixelLaws o.bpp o.endian found in
      let bits = ap (λ (t : ℕ). img.width * t) (rawimg_find_format-bpp o.bpp o.endian found) in
      let row : img.width * o.bpp / 8 ≡ img.width / fmt.block_pixels * fmt.block_bytes =
        omega (arith, laws.grid.row_bytes img.width whole) in
      record {
        known = ((o.bpp, o.endian), found);
        whole_blocks = whole;
        row = omega arith;
        fits =
            rw
              (
                sized,
                no_wrap (img.width * img.height) small_area,
                no_wrap (img.width * img.height * o.bpp) small,
              )
              (omega (
                arith,
                rows_fit img.width img.height o.bpp (u32 (img.width * o.bpp) / 8) (omega arith),
              ));
        small = rw (sized, no_wrap (img.width * img.height) small_area) (omega arith);
      }

  -- The steps around the loops, where the format and a buffer are found.
  convert_returns :
      (fmt : RawFormat) (dest out : Memory)
      → rawimg_find_format o.bpp o.endian ≡ some fmt
      → destination malloc o.dest new_size ≡ ok dest
      → convert_rows img m (new_image fmt) (shift_of img o) img.height 0 dest ≡ some out
      → rawimg_lua_convert negative malloc img m o ≡ ok (new_image fmt, out)
  unfolding rawimg_lua_convert
  convert_returns fmt dest out found given returns = rw (found, given) (rw returns)

  -- On an image bound to a buffer of bytes, with a format of the table whose blocks divide the width
  -- and whose setter has a case for every pixel, with sizes that fit 32 bits, values that fit the new
  -- format once shifted, and a buffer of bytes, of the new size, that is given or got from malloc,
  -- `convert` returns an image of that format and of the same size, inside that buffer, and the pixel at (x, y) is the old one, shifted as the options
  -- say.
  pub rawimg_lua_convert_lem :
      (fmt : RawFormat) (dest : Memory)
      → IsImage img m
      → IsBytes m
      → destination malloc o.dest new_size ≡ ok dest
      → dest.size ≡ new_size
      → IsBytes dest
      → rawimg_find_format o.bpp o.endian ≡ some fmt
      → img.width % fmt.block_pixels ≡ 0
      → img.width * o.bpp < 2 ^ 32
      → img.width * img.height < 2 ^ 32
      → img.width * img.height * o.bpp < 2 ^ 32
      → ((x : ℕ) → loses_writes fmt x ≡ false)
      → ((x y : ℕ)
          → x < img.width
          → y < img.height
          → shift_value (shift_of img o) (pixel_at img m x y) < 2 ^ fmt.bpp)
      → (x y : ℕ) → x < img.width
      → y < img.height
      → (r : RawImage × Memory) × (rawimg_lua_convert negative malloc img m o ≡ ok r)
        × (r.0.fmt ≡ fmt)
        × (r.0.width ≡ img.width)
        × (r.0.height ≡ img.height)
        × IsImage r.0 r.1
        × (pixel_at r.0 r.1 x y ≡ shift_value (shift_of img o) (pixel_at img m x y))
  rawimg_lua_convert_lem fmt dest iv b given sized chance found whole small_row small_area small
        keeps fits x y hx hy =
      let new = new_image fmt in
      let start : IsCopied img m new (shift_of img o) iv b refl refl keeps fits 0 0 dest = record {
        valid = new_image-IsImage fmt dest sized found whole small_row small_area small;
        bytes = chance;
        copied = λ x' y' hx hy before. absurd (omega arith);
      } in
      let (out, returns, c) =
        convert_rows-IsCopied img m new (shift_of img o) iv b refl refl keeps fits img.height 0 dest
          (omega arith) start in
      (
        (new, out),
        convert_returns fmt dest out found given returns,
        refl,
        refl,
        refl,
        c.valid,
        c.copied x y hx hy (omega arith),
      )

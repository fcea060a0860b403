-- ===== src/Rawimg/Tests.antt =====
-- Runs of the raw image code on small images, and the theorems at them.
use chdkptp_jet_tx1_jet_nano.Common.{
  Option, ℕ, ◌+◌, ◌*◌, ◌%◌, ◌^◌, ◌<◌, ◌≤◌, ◌≡◌, inl, inr, refl, arith, some, none, [], ◌∷◌, not,
  ◌&&◌, ◌==◌, if◌then◌else◌, Memory, IsBytes,
}
use chdkptp_jet_tx1_jet_nano.Common.Results.{ok}
use chdkptp_jet_tx1_jet_nano.Rawimg.Format.{
  rawimg_find_format, find_from, raw_10b, raw_14b, raw_12l,
}
use chdkptp_jet_tx1_jet_nano.Rawimg.Layout.{block_number, pixel_of}
use chdkptp_jet_tx1_jet_nano.Rawimg.Laws.Interface.{layout_of, loses_writes}
use chdkptp_jet_tx1_jet_nano.Rawimg.Image.{RawImage, rawimg_lua_get_pixel, rawimg_lua_set_pixel}
use chdkptp_jet_tx1_jet_nano.Rawimg.Image.Access.{IsImage, pixel_at}
use chdkptp_jet_tx1_jet_nano.Rawimg.Image.Methods.{
  get_pixel-layout, rawimg_lua_get_pixel_lem, get_pixel-set_pixel, set_pixel_past_row,
}
use chdkptp_jet_tx1_jet_nano.Rawimg.Bind.{ImageSpec, rawimg_lua_bind_lbuf, check_cfa, check_area}
use chdkptp_jet_tx1_jet_nano.Rawimg.Bind.Laws.{FitsWord, bind_lbuf-IsImage}
use chdkptp_jet_tx1_jet_nano.Rawimg.Convert.{
  Options, destination, rawimg_lua_convert, shift_of, shift_value,
}
use chdkptp_jet_tx1_jet_nano.Rawimg.Convert.Copy.{rawimg_lua_convert_lem}
use chdkptp_jet_tx1_jet_nano.Rawimg.Patch.{rawimg_lua_patch_pixels}
use chdkptp_jet_tx1_jet_nano.Rawimg.Patch.Loops.{patch_pixels-IsPatched}

-- Two rows of four pixels of 10 bits.
abbrev buffer : Memory
buffer = record { size = 10; cell = λ i. (i * 17 + 5) % 256 }

abbrev spec : ImageSpec
spec = record {
  width = 4;
  height = 2;
  bpp = 10;
  endian = 1;
  data_offset = none;
  black_level = some 31;
  cfa_pattern = some (0 ∷ 1 ∷ 1 ∷ 2 ∷ []);
  active_area = some (record { top = 0; left = 1; bottom = 1; right = 3 });
}

abbrev image : RawImage
image = record {
  fmt = raw_10b;
  row_bytes = 5;
  width = 4;
  height = 2;
  cfa_pattern = 0 ∷ 1 ∷ 1 ∷ 2 ∷ [];
  active_top = 0;
  active_left = 1;
  active_bottom = 1;
  active_right = 3;
  black_level = 31;
  base = 0;
}

-- To the 12-bit little endian format, with the values shifted up.
abbrev to_12l : Options
to_12l = record { bpp = 12; endian = 0; valupmod = 1; valdownmod = 0; dest = none }

buffer-IsBytes : IsBytes buffer
buffer-IsBytes i = omega arith

found_10b : rawimg_find_format 10 1 ≡ some raw_10b
unfolding rawimg_find_format find_from
found_10b = refl

found_12l : rawimg_find_format 12 0 ≡ some raw_12l
unfolding rawimg_find_format find_from
found_12l = refl

found_14b : rawimg_find_format 14 1 ≡ some raw_14b
unfolding rawimg_find_format find_from
found_14b = refl

image-IsImage : IsImage image buffer
image-IsImage = record {
  known = ((10, 1), found_10b);
  whole_blocks = refl;
  row = refl;
  fits = omega arith;
  small = omega arith;
}

spec-FitsWord : FitsWord spec
spec-FitsWord = record { row = omega arith; total = omega arith }

bound_image : rawimg_lua_bind_lbuf spec buffer ≡ ok image
unfolding rawimg_lua_bind_lbuf check_cfa check_area rawimg_find_format find_from
bound_image = refl

to_12l-fits :
    (x y : ℕ)
    → x < image.width
    → y < image.height
    → shift_value (shift_of image to_12l) (pixel_at image buffer x y) < 2 ^ raw_12l.bpp
unfolding shift_of
to_12l-fits x y hx hy = omega arith

get_pixel-layout_example :
    raw_10b.get_pixel buffer 0 5 3 1
    ≡ some (pixel_of (layout_of raw_10b) (block_number (layout_of raw_10b) buffer 5) 3)
get_pixel-layout_example =
    get_pixel-layout 10 1 buffer 0 5 3 1 found_10b buffer-IsBytes (omega arith) (omega arith)

rawimg_lua_get_pixel_example :
    rawimg_lua_get_pixel image buffer 2 1 ≡ some (some (pixel_at image buffer 2 1))
rawimg_lua_get_pixel_example =
    rawimg_lua_get_pixel_lem image buffer 2 1 image-IsImage buffer-IsBytes

get_pixel-set_pixel_example :
    (m' : Memory) × (rawimg_lua_set_pixel image buffer 2 1 1000 ≡ some m')
    × IsImage image m'
    × IsBytes m'
    × ((x' y' : ℕ)
        → rawimg_lua_get_pixel image m' x' y' ≡ (
            if ((2 == x') && (1 == y')) && not (loses_writes raw_10b 2)
            then some (some 1000)
            else rawimg_lua_get_pixel image buffer x' y'))
get_pixel-set_pixel_example =
    get_pixel-set_pixel image buffer 2 1 1000 image-IsImage buffer-IsBytes (omega arith)
      (omega arith) (omega arith)

set_pixel_past_row_example :
    (m' : Memory) × (rawimg_lua_set_pixel image buffer 5 0 7 ≡ some m')
    × (pixel_at image m' 1 1 ≡ 7)
set_pixel_past_row_example =
    set_pixel_past_row image buffer 1 0 7 image-IsImage buffer-IsBytes (omega arith) (omega arith)
      (omega arith) refl 1 1 (omega arith) (omega arith)

bind_lbuf-IsImage_example :
    IsImage image buffer
    × (image.active_top ≤ image.active_bottom)
    × (image.active_bottom ≤ image.height)
bind_lbuf-IsImage_example = bind_lbuf-IsImage spec buffer spec-FitsWord (omega arith) bound_image

abbrev zeroed : ℕ → Option Memory
zeroed n = some (record { size = n; cell = λ i. 0 })

rawimg_lua_convert_example :
    (r : RawImage × Memory) × (rawimg_lua_convert (λ black k. 0) zeroed image buffer to_12l ≡ ok r)
    × (r.0.fmt ≡ raw_12l)
    × (r.0.width ≡ 4)
    × (r.0.height ≡ 2)
    × IsImage r.0 r.1
    × (pixel_at r.0 r.1 1 1 ≡ shift_value (shift_of image to_12l) (pixel_at image buffer 1 1))
unfolding destination
rawimg_lua_convert_example =
    rawimg_lua_convert_lem (λ black k. 0) zeroed image buffer to_12l raw_12l
      (record { size = 12; cell = λ i. 0 }) image-IsImage buffer-IsBytes refl refl
      (λ i. omega arith) found_12l refl (omega arith) (omega arith) (omega arith) (λ x. refl)
      to_12l-fits 1 1 (omega arith) (omega arith)

patch_pixels-IsPatched_example :
    (m' : Memory) × (count : ℕ) × (rawimg_lua_patch_pixels image buffer 0 ≡ some (m', count))
    × (count ≤ 2)
    × (m'.size ≡ 10)
    × (pixel_at image m' 3 1 ≡ pixel_at image buffer 3 1)
patch_pixels-IsPatched_example =
    patch_pixels-IsPatched image buffer 0 image-IsImage buffer-IsBytes (omega arith) (omega arith)
      (omega arith) (omega arith) 3 1 (omega arith) (omega arith) (inr (inl (omega arith)))

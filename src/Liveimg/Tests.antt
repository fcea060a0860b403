-- ===== src/Liveimg/Tests.antt =====
-- Runs of the live view, and the theorems at inputs that meet their conditions.
use chdkptp_jet_tx1_jet_nano.Common.{
  ℕ, ◌+◌, ◌*◌, ◌/◌, ◌^◌, ◌<◌, ◌≤◌, ◌≡◌, ◌⊎◌, inr, refl, Option, some, none, true, false, List, [],
  ◌∷◌, ◌++◌, Memory, get_or, load, store, put, length, arith,
}
use chdkptp_jet_tx1_jet_nano.Common.Int.{pos, negsuc, ◌+ℤ◌, ◌-ℤ◌, ◌*ℤ◌}
use chdkptp_jet_tx1_jet_nano.Common.Results.{Result, ok, fault, err}
use chdkptp_jet_tx1_jet_nano.Liveimg.Colour.{Rgba, yuv_to_r, yuv_to_g, yuv_to_b}
use chdkptp_jet_tx1_jet_nano.Liveimg.Colour.Rounding.{IsNearest, yuv_to_rgb-IsNearest}
use chdkptp_jet_tx1_jet_nano.Liveimg.Frame.{get_vp_desc, get_bm_desc, get_fb_bpp, header}
use chdkptp_jet_tx1_jet_nano.Liveimg.Frame.Checks.{desc_of, get_vp_desc-inside}
use chdkptp_jet_tx1_jet_nano.Liveimg.Palette.{convert_palette}
use chdkptp_jet_tx1_jet_nano.Liveimg.Planar.{Pimg}
use chdkptp_jet_tx1_jet_nano.Liveimg.Convert.Packed.{HasPixels}
use chdkptp_jet_tx1_jet_nano.Liveimg.Viewport.{liveimg_get_viewport_table_rgba, view_size}
use chdkptp_jet_tx1_jet_nano.Liveimg.Viewport.TableLaws.{
  viewport_table-HasPixels, viewport_pixel, shown,
}
use chdkptp_jet_tx1_jet_nano.Liveimg.Bitmap.{check_palette, liveimg_get_bitmap_pimg}
use chdkptp_jet_tx1_jet_nano.Liveimg.Bitmap.Palettes.{convert_palette-Full}
use chdkptp_jet_tx1_jet_nano.Liveimg.Bitmap.Reuse.{bitmap_pimg_keeps_dimensions}

-- An `int` below 256.
abbrev int : ℕ → List ℕ
int n = n ∷ 0 ∷ 0 ∷ 0 ∷ []

abbrev block : List ℕ → ℕ → Memory
block bytes n = record { size = n; cell = λ i. get_or bytes i 0 }

abbrev blank : ℕ → Option Memory
blank n = some (block [] n)

-- A header, a viewport of 4 by 2 pixels in rows of 4, and its 12 bytes.
abbrev small_frame : Memory
small_frame =
    block
      (int 2
        ++ int 1
        ++ int 0
        ++ int 0
        ++ int 0
        ++ int 32
        ++ int 0
        ++ int 0
        ++ int 0
        ++ int 68
        ++ int 4
        ++ int 4
        ++ int 2
        ++ int 0
        ++ int 0
        ++ int 0
        ++ int 0
        ++ 10 ∷ 20 ∷ 30 ∷ 40 ∷ 50 ∷ 60 ∷ 200 ∷ 80 ∷ 250 ∷ 90 ∷ 100 ∷ 110 ∷ [])
      80

viewport_table_example :
    (img : Memory) × (liveimg_get_viewport_table_rgba blank small_frame true
      ≡ ok (some (record { width = 1 * shown (pos 0) true; height = 2; bytes = img })))
    × (img.size ≡ 16)
    × HasPixels img (viewport_pixel small_frame (pos 0) true 68 4) (1 * shown (pos 0) true) 2
unfolding get_vp_desc load
viewport_table_example =
    viewport_table-HasPixels blank small_frame (block [] 16) (pos 0) true 68 4 1 2 (omega arith)
      (omega arith) (omega arith) (omega arith) refl refl refl

viewport_inside_example :
    (let bpp = get_fb_bpp (desc_of (pos 0) 68 4 4 2) in
      (68 + 4 * 2 * bpp / 8 ≤ 80) × (4 * 2 * bpp < 2 ^ 31) × (4 ≤ 4))
    × ((pos 0 ≡ pos 0) ⊎ (pos 0 ≡ pos 2) ⊎ (pos 0 ≡ pos 3))
unfolding get_vp_desc load
viewport_inside_example =
    get_vp_desc-inside small_frame (pos 0) 68 4 4 2 (omega arith) (omega arith) refl

-- A header with a palette of type 2 at byte 32.
abbrev palette_frame : Memory
palette_frame = block (int 2 ++ int 2 ++ int 0 ++ int 2 ++ int 32 ++ []) 96

palette_example : (pal : List Rgba) × (convert_palette palette_frame ≡ ok pal) × (length pal ≡ 256)
unfolding header check_palette load
palette_example =
    convert_palette-Full palette_frame 2 32 tt refl refl (omega arith) (omega arith)
      (inr (omega arith)) refl

rounding_example :
    IsNearest (yuv_to_r 200 (pos 100)) (pos (200 * 4096) +ℤ pos 100 *ℤ pos 5743)
    × IsNearest
        (yuv_to_g 200 (negsuc 9) (pos 100))
        (pos (200 * 4096) -ℤ negsuc 9 *ℤ pos 1411 -ℤ pos 100 *ℤ pos 2925)
    × IsNearest (yuv_to_b 200 (negsuc 9)) (pos (200 * 4096) +ℤ negsuc 9 *ℤ pos 7258)
rounding_example = yuv_to_rgb-IsNearest 200 (negsuc 9) (pos 100)

-- A bitmap of 2 by 1 pixels with an opacity buffer that has no data.
abbrev bitmap_frame : Memory
bitmap_frame =
    block
      (int 2
        ++ int 2
        ++ int 0
        ++ int 0
        ++ int 0
        ++ int 0
        ++ int 32
        ++ int 68
        ++ int 2
        ++ int 104
        ++ int 2
        ++ int 2
        ++ int 1
        ++ int 0
        ++ int 0
        ++ int 0
        ++ int 0
        ++ int 4
        ++ int 0
        ++ int 2
        ++ int 2
        ++ int 1
        ++ int 0
        ++ int 0
        ++ int 0
        ++ int 0
        ++ 10 ∷ 20 ∷ 30 ∷ 40 ∷ [])
      108

abbrev tall_image : Pimg
tall_image = record {
  width = 1;
  height = 2;
  planes = some (record { block = block [] 8; plane = 2; has_alpha = true });
}

abbrev image_of : Result (Option Pimg) → Pimg
image_of fault = tall_image
image_of (err message) = tall_image
image_of (ok none) = tall_image
image_of (ok (some im)) = im

keeps_dimensions_example :
    ((image_of (liveimg_get_bitmap_pimg blank (some tall_image) bitmap_frame false)).width ≡ 1)
    × ((image_of (liveimg_get_bitmap_pimg blank (some tall_image) bitmap_frame false)).height ≡ 2)
unfolding get_bm_desc view_size liveimg_get_bitmap_pimg load store put
keeps_dimensions_example =
    bitmap_pimg_keeps_dimensions blank bitmap_frame false (desc_of (pos 2) 104 2 2 1) tall_image
      (image_of (liveimg_get_bitmap_pimg blank (some tall_image) bitmap_frame false)) refl refl refl

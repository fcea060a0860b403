-- ===== src/Liveimg/Bitmap.antt =====
-- liveimg.c: the bitmap overlay as a packed image and as a planar image.
pub mod Palettes
pub mod Reuse
use Prim.Native.String.{String}
use chdkptp_jet_tx1_jet_nano.Common.{
  ℕ, zero, suc, ◌+◌, ◌-◌, ◌*◌, ◌/◌, ◌^◌, Option, none, some, Bool, true, false, not, ◌||◌, ◌==◌,
  ltb, if◌then◌else◌, u32, Memory, List, [], ◌∷◌, get_elem?,
}
use chdkptp_jet_tx1_jet_nano.Common
use chdkptp_jet_tx1_jet_nano.Common.Int.{ℤ, pos, ◌+ℤ◌, ◌-ℤ◌, ◌*ℤ◌, pos_part, to_u32}
use chdkptp_jet_tx1_jet_nano.Common.Results.{
  Result, fault, err, ok, ◌>>=◌, ◌>>◌, raise_if, expect, access,
}
use chdkptp_jet_tx1_jet_nano.Liveimg.Colour.{Rgba}
use chdkptp_jet_tx1_jet_nano.Liveimg.Frame.{
  FbDesc, load_at, eq_ℤ, in_int, header, palette_type, palette_data_start, get_bm_desc,
  get_bmo_desc, lv_fb_yuv8b,
}
use chdkptp_jet_tx1_jet_nano.Liveimg.Palette.{get_palette_size, convert_palette}
use chdkptp_jet_tx1_jet_nano.Liveimg.Planar.{Pimg, Planes, pimg_init_rgba}
use chdkptp_jet_tx1_jet_nano.Liveimg.Pixels.{collect, rounds, write_packed, write_rgba}
use chdkptp_jet_tx1_jet_nano.Liveimg.Convert.{
  yuvb_live_bitmap_to_packed_rgba, opacity_live_merge_to_packed_rgba, yuvb_live_to_cd_rgba,
  opacity_live_to_cd_a,
}
use chdkptp_jet_tx1_jet_nano.Liveimg.Viewport.{Table, view_width, view_size, is_empty, shape}

-- `get_palette_size(frame->palette_type) + frame->palette_data_start > frame_lb->len`, 32 bits wide.
unfoldable pub check_palette : Memory → Result (Unit {0})
unfolding header get_palette_size
check_palette frame = do
  type ← header frame palette_type
  start ← header frame palette_data_start
  raise_if (ltb frame.size (u32 (get_palette_size (to_u32 type) + to_u32 start)))
      "data < palette size"

unfoldable pub same_dimensions : FbDesc → FbDesc → Bool
unfolding eq_ℤ
same_dimensions bm bmo = not (
    not (eq_ℤ bm.visible_width bmo.visible_width)
    || not (eq_ℤ bm.visible_height bmo.visible_height))

-- The opacity buffer that goes with a YUV overlay.
unfoldable pub opacity_for : Memory → FbDesc → Result (Option FbDesc)
unfolding get_bmo_desc same_dimensions
opacity_for frame bm = do
  bmo ← get_bmo_desc frame
  raise_if (not (same_dimensions bm bmo)) "opacity buffer size != bitmap size"
  ok (some bmo)

-- With a palette there is none, and the palette is checked.
unfoldable pub get_opacity : Memory → FbDesc → Result (Option FbDesc)
unfolding eq_ℤ opacity_for check_palette
get_opacity frame bm =
    if eq_ℤ bm.fb_type lv_fb_yuv8b then opacity_for frame bm else (check_palette frame >> ok none)

-- `pal_rgba[*(p+x)]`.
unfoldable pub palette_pixel : Memory → List Rgba → ℤ → Option (List Rgba)
unfolding load_at
palette_pixel frame pal_rgba p =
    Common.◌>>=◌ (load_at frame p) λ i. Common.◌>>=◌ (get_elem? pal_rgba i) λ c. some (c ∷ [])

-- The loops over a bitmap of palette indexes: `x` goes up by `par`, and the rows are visited from
-- `first` on by `next`.
unfoldable pub palette_pixels :
    Memory → List Rgba → FbDesc → Bool → (first : ℤ) (next : ℤ → ℤ) → Option (List Rgba)
unfolding collect palette_pixel
palette_pixels frame pal_rgba bm skip first next =
    let par = if skip then 2 else 1 in
    collect
      (collect (palette_pixel frame pal_rgba) (λ p. p +ℤ pos par)
        (rounds (pos_part bm.visible_width) par))
      next (pos_part bm.visible_height) first

unfoldable pub palette_to_packed : Memory → FbDesc → Bool → Memory → Result Memory
unfolding convert_palette palette_pixels write_packed
palette_to_packed frame bm skip img = do
  pal_rgba ← convert_palette frame
  pixels ← access (palette_pixels frame pal_rgba bm skip bm.data_start (λ p. p +ℤ bm.buffer_width))
  access (write_packed img 0 pixels)

-- The first write of an alpha goes through a null pointer.
abbrev pub write_without_alpha : Memory → List Rgba → Result Memory
write_without_alpha img [] = ok img
write_without_alpha img (c ∷ cs) = fault

-- `(height-1)*y_inc` is an `int`.
unfoldable pub palette_to_planes : Memory → FbDesc → Bool → Planes → Result Memory
unfolding convert_palette palette_pixels write_rgba in_int
palette_to_planes frame bm skip planes = do
  pal_rgba ← convert_palette frame
  last ← in_int ((bm.visible_height -ℤ pos 1) *ℤ bm.buffer_width)
  pixels ←
      access
        (palette_pixels frame pal_rgba bm skip (bm.data_start +ℤ last) (λ p. p -ℤ bm.buffer_width))
  if planes.has_alpha
      then access
          (write_rgba planes.block 0 planes.plane (2 * planes.plane) (3 * planes.plane) pixels)
      else write_without_alpha planes.block pixels

-- `if(bmo && bmo->data_start)`.
abbrev pub use_opacity : Option FbDesc → (FbDesc → Option Memory) → Memory → Result Memory
use_opacity none merge img = ok img
use_opacity (some bmo) merge img =
    if eq_ℤ bmo.data_start (pos 0) then ok img else access (merge bmo)

unfoldable pub yuv_bitmap_to_packed :
    Memory → FbDesc → Option FbDesc → Bool → Memory → Result Memory
unfolding yuvb_live_bitmap_to_packed_rgba opacity_live_merge_to_packed_rgba eq_ℤ
yuv_bitmap_to_packed frame bm bmo skip img = do
  img1 ← access (yuvb_live_bitmap_to_packed_rgba frame bm.data_start (shape bm) skip img)
  use_opacity bmo (λ o. opacity_live_merge_to_packed_rgba frame o.data_start (shape o) skip img1)
      img1

unfoldable pub bitmap_to_packed : Memory → FbDesc → Option FbDesc → Bool → Memory → Result Memory
unfolding eq_ℤ yuv_bitmap_to_packed palette_to_packed
bitmap_to_packed frame bm bmo skip img =
    if eq_ℤ bm.fb_type lv_fb_yuv8b
    then yuv_bitmap_to_packed frame bm bmo skip img
    else palette_to_packed frame bm skip img

unfoldable pub yuv_bitmap_to_planes :
    Memory → FbDesc → Option FbDesc → Bool → Planes → Result Memory
unfolding yuvb_live_to_cd_rgba opacity_live_to_cd_a eq_ℤ
yuv_bitmap_to_planes frame bm bmo skip planes = do
  block ←
      access (yuvb_live_to_cd_rgba frame bm.data_start (shape bm) skip planes.block planes.plane)
  use_opacity bmo (λ o. opacity_live_to_cd_a frame o.data_start (shape o) skip block planes.plane)
      block

-- Without an alpha plane the writes go through a null pointer.
unfoldable pub bitmap_to_planes : Memory → FbDesc → Option FbDesc → Bool → Planes → Result Memory
unfolding eq_ℤ yuv_bitmap_to_planes palette_to_planes
bitmap_to_planes frame bm bmo skip planes =
    if eq_ℤ bm.fb_type lv_fb_yuv8b
    then (if planes.has_alpha then yuv_bitmap_to_planes frame bm bmo skip planes else fault)
    else palette_to_planes frame bm skip planes

module _ (malloc : ℕ → Option Memory) where
  bitmap_table : Memory → FbDesc → Bool → Result (Option Table)
  unfolding get_opacity bitmap_to_packed view_size view_width
  bitmap_table frame bm skip = do
    bmo ← get_opacity frame bm
    data0 ← expect (malloc (u32 (view_size bm skip * 4))) "malloc failed"
    img ← bitmap_to_packed frame bm bmo skip data0
    ok (
        some
          (record { width = view_width bm skip; height = to_u32 bm.visible_height; bytes = img }))

  unfoldable pub liveimg_get_bitmap_table_rgba : Memory → Bool → Result (Option Table)
  unfolding get_bm_desc is_empty bitmap_table
  liveimg_get_bitmap_table_rgba frame skip = do
    bm ← get_bm_desc frame
    if is_empty bm skip then ok none else bitmap_table frame bm skip

  new_bitmap_image : FbDesc → Bool → Result Pimg
  unfolding pimg_init_rgba view_width
  new_bitmap_image bm skip =
      expect (pimg_init_rgba malloc (view_width bm skip) (to_u32 bm.visible_height))
        "failed to create image"

  -- The given image as it is if the number of pixels is the same, or a new one.
  unfoldable pub bitmap_image : Option Pimg → FbDesc → Bool → Result Pimg
  unfolding new_bitmap_image view_size
  bitmap_image none bm skip = new_bitmap_image bm skip
  bitmap_image (some im) bm skip =
      if view_size bm skip == u32 (im.width * im.height) then ok im else new_bitmap_image bm skip

  write_bitmap : Memory → FbDesc → Option FbDesc → Bool → Pimg → Option Planes → Result Pimg
  unfolding bitmap_to_planes
  write_bitmap frame bm bmo skip im none = fault
  write_bitmap frame bm bmo skip im (some planes) = do
    block ← bitmap_to_planes frame bm bmo skip planes
    ok (record im { planes = some (record planes { block = block }) })

  -- The returned image; a given image of another size is destroyed, which the result does not show.
  unfoldable pub liveimg_get_bitmap_pimg : Option Pimg → Memory → Bool → Result (Option Pimg)
  unfolding get_bm_desc is_empty get_opacity bitmap_image write_bitmap
  liveimg_get_bitmap_pimg im frame skip = do
    bm ← get_bm_desc frame
    if is_empty bm skip then ok none else do
      bmo ← get_opacity frame bm
      im1 ← bitmap_image im bm skip
      im2 ← write_bitmap frame bm bmo skip im1 im1.planes
      ok (some im2)

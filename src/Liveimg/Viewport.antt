-- ===== src/Liveimg/Viewport.antt =====
-- liveimg.c: the viewport as a packed image and as a planar image.
pub mod TableCase
pub mod TableLaws
use Prim.Native.String.{String}
use chdkptp_jet_tx1_jet_nano.Common.{
  ℕ, ◌+◌, ◌*◌, ◌^◌, Option, none, some, Bool, true, false, not, ◌||◌, ◌==◌, if◌then◌else◌, u32,
  Memory,
}
use chdkptp_jet_tx1_jet_nano.Common.Int.{ℤ, pos, to_u32, div_ℤ}
use chdkptp_jet_tx1_jet_nano.Common.Results.{Result, fault, err, ok, ◌>>=◌, expect, access}
use chdkptp_jet_tx1_jet_nano.Liveimg.Frame.{FbDesc, eq_ℤ, get_vp_desc, lv_fb_yuv8, lv_fb_yuv8b}
use chdkptp_jet_tx1_jet_nano.Liveimg.Planar.{Pimg, Planes, pimg_destroy, pimg_init_rgb}
use chdkptp_jet_tx1_jet_nano.Liveimg.Convert.{
  Shape, yuv_live_to_packed_rgba, yuvb_live_to_packed_rgba, yuvc_live_to_packed_rgba,
  yuv_live_to_cd_rgb, yuvb_live_to_cd_rgb, yuvc_live_to_cd_rgb,
}

-- The table that Lua gets: the dimensions, and the bytes of the string.
pub record Table : Type 0 where
  pub width : ℕ
  pub height : ℕ
  pub bytes : Memory

-- `visible_width/par`, and the product with the height.
unfoldable pub view_width : FbDesc → Bool → ℕ
view_width desc skip = to_u32 (div_ℤ desc.visible_width (if skip then 2 else 1))

unfoldable pub view_size : FbDesc → Bool → ℕ
unfolding view_width
view_size desc skip = u32 (view_width desc skip * to_u32 desc.visible_height)

-- The arguments of a conversion.
abbrev pub shape : FbDesc → Shape
shape desc = record {
  buf_width = to_u32 desc.buffer_width;
  width = to_u32 desc.visible_width;
  height = to_u32 desc.visible_height;
}

unfoldable pub viewport_to_packed : Memory → FbDesc → Bool → Memory → Option Memory
unfolding eq_ℤ yuv_live_to_packed_rgba yuvb_live_to_packed_rgba yuvc_live_to_packed_rgba
viewport_to_packed frame vp skip img =
    if eq_ℤ vp.fb_type lv_fb_yuv8
    then yuv_live_to_packed_rgba frame vp.data_start (shape vp) skip img
    else if eq_ℤ vp.fb_type lv_fb_yuv8b
    then yuvb_live_to_packed_rgba frame vp.data_start (shape vp) skip img
    else yuvc_live_to_packed_rgba frame vp.data_start (shape vp) skip img

unfoldable pub viewport_to_planes : Memory → FbDesc → Bool → Planes → Option Memory
unfolding eq_ℤ yuv_live_to_cd_rgb yuvb_live_to_cd_rgb yuvc_live_to_cd_rgb
viewport_to_planes frame vp skip planes =
    if eq_ℤ vp.fb_type lv_fb_yuv8
    then yuv_live_to_cd_rgb frame vp.data_start (shape vp) skip planes.block planes.plane
    else if eq_ℤ vp.fb_type lv_fb_yuv8b
    then yuvb_live_to_cd_rgb frame vp.data_start (shape vp) skip planes.block planes.plane
    else yuvc_live_to_cd_rgb frame vp.data_start (shape vp) skip planes.block planes.plane

-- Nothing to show: no data, or no pixels.
unfoldable pub is_empty : FbDesc → Bool → Bool
unfolding eq_ℤ view_size
is_empty desc skip = eq_ℤ desc.data_start (pos 0) || (view_size desc skip == 0)

module _ (malloc : ℕ → Option Memory) where
  viewport_table : Memory → FbDesc → Bool → Result (Option Table)
  unfolding view_size view_width viewport_to_packed
  viewport_table frame vp skip = do
    data0 ← expect (malloc (u32 (view_size vp skip * 4))) "malloc failed"
    img ← access (viewport_to_packed frame vp skip data0)
    ok (
        some
          (record { width = view_width vp skip; height = to_u32 vp.visible_height; bytes = img }))

  unfoldable pub liveimg_get_viewport_table_rgba : Memory → Bool → Result (Option Table)
  unfolding get_vp_desc is_empty viewport_table
  liveimg_get_viewport_table_rgba frame skip = do
    vp ← get_vp_desc frame
    if is_empty vp skip then ok none else viewport_table frame vp skip

  -- The image to write to: the given one with its new dimensions if the number of pixels is the
  -- same, or a new one.
  new_viewport_image : FbDesc → Bool → Result Pimg
  unfolding pimg_init_rgb view_width
  new_viewport_image vp skip =
      expect (pimg_init_rgb malloc (view_width vp skip) (to_u32 vp.visible_height))
        "failed to create image"

  unfoldable pub viewport_image : Option Pimg → FbDesc → Bool → Result Pimg
  unfolding new_viewport_image view_size view_width
  viewport_image none vp skip = new_viewport_image vp skip
  viewport_image (some im) vp skip =
      if view_size vp skip == u32 (im.width * im.height)
      then ok (record im { width = view_width vp skip; height = to_u32 vp.visible_height })
      else new_viewport_image vp skip

  -- A write through the null planes of a killed image is a fault.
  write_viewport : Memory → FbDesc → Bool → Pimg → Option Planes → Result Pimg
  unfolding viewport_to_planes
  write_viewport frame vp skip im none = fault
  write_viewport frame vp skip im (some planes) = do
    block ← access (viewport_to_planes frame vp skip planes)
    ok (record im { planes = some (record planes { block = block }) })

  -- The returned image; a given image of another size is destroyed, which the result does not show.
  unfoldable pub liveimg_get_viewport_pimg : Option Pimg → Memory → Bool → Result (Option Pimg)
  unfolding get_vp_desc is_empty viewport_image write_viewport
  liveimg_get_viewport_pimg im frame skip = do
    vp ← get_vp_desc frame
    if is_empty vp skip then ok none else do
      im1 ← viewport_image im vp skip
      im2 ← write_viewport frame vp skip im1 im1.planes
      ok (some im2)

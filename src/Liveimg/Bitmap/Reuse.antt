-- ===== src/Liveimg/Bitmap/Reuse.antt =====
-- A planar image that is given again for a bitmap.
use chdkptp_jet_tx1_jet_nano.Common.{
  ℕ, ◌*◌, ◌≡◌, refl, ap, sym, ◌∙◌, arith, Option, none, some, Memory, Bool, true, false, u32,
  if◌then◌else◌, ==_iff,
}
use chdkptp_jet_tx1_jet_nano.Common.Results.{Result, ok, ◌>>=◌}
use chdkptp_jet_tx1_jet_nano.Liveimg.Frame.{FbDesc, get_bm_desc}
use chdkptp_jet_tx1_jet_nano.Liveimg.Frame.Checks.{both_ok}
use chdkptp_jet_tx1_jet_nano.Liveimg.Planar.{Pimg, Planes}
use chdkptp_jet_tx1_jet_nano.Liveimg.Viewport.{view_size, is_empty}
use chdkptp_jet_tx1_jet_nano.Liveimg.Bitmap.{
  get_opacity, bitmap_image, new_bitmap_image, bitmap_to_planes, write_bitmap,
  liveimg_get_bitmap_pimg,
}

module _ (malloc : ℕ → Option Memory) (frame : Memory) (skip : Bool) where
  -- What follows the tests of the bitmap.
  write_image : Option Pimg → FbDesc → Result (Option Pimg)
  write_image im bm = get_opacity frame bm >>= λ bmo. bitmap_image malloc im bm skip >>= λ im1.
      write_bitmap malloc frame bm bmo skip im1 im1.planes >>= λ im2. ok (some im2)

  pimg_step :
      (im : Option Pimg)
      → liveimg_get_bitmap_pimg malloc im frame skip
        ≡ (get_bm_desc frame >>= λ bm. if is_empty bm skip then ok none else write_image im bm)
  unfolding liveimg_get_bitmap_pimg write_image
  pimg_step im = refl

  write_bitmap-dimensions :
      (bm : FbDesc) (bmo : Option FbDesc) (im : Pimg) (planes : Option Planes) (im' : Pimg)
      → write_bitmap malloc frame bm bmo skip im planes ≡ ok im'
      → (im'.width ≡ im.width) × (im'.height ≡ im.height)
  unfolding write_bitmap
  write_bitmap-dimensions bm bmo im none im' e = cc
  write_bitmap-dimensions bm bmo im (some planes) im' e =
      let (block, e1, k) = both_ok (bitmap_to_planes frame bm bmo skip planes) _ e in ground arith

  reused :
      (im : Pimg) (bm : FbDesc)
      → view_size bm skip ≡ u32 (im.width * im.height)
      → bitmap_image malloc (some im) bm skip ≡ ok im
  unfolding bitmap_image
  reused im bm same =
      ap (λ c. if c then ok im else new_bitmap_image malloc bm skip)
        ((==_iff (view_size bm skip) (u32 (im.width * im.height))).1 same)

  write_image-dimensions :
      (im im' : Pimg) (bm : FbDesc)
      → view_size bm skip ≡ u32 (im.width * im.height)
      → write_image (some im) bm ≡ ok (some im')
      → (im'.width ≡ im.width) × (im'.height ≡ im.height)
  unfolding write_image
  write_image-dimensions im im' bm same e =
      let (bmo, e1, k1) = both_ok (get_opacity frame bm) _ e in
      let (im1, e2, k2) = both_ok (bitmap_image malloc (some im) bm skip) _ k1 in
      let (im2, e3, k3) = both_ok (write_bitmap malloc frame bm bmo skip im1 im1.planes) _ k2 in
      let same_image : im1 ≡ im = cc (reused im bm same) in
      let last : im2 ≡ im' = cc in
      let kept = write_bitmap-dimensions bm bmo im1 im1.planes im2 e3 in
      (
        ap (λ i. i.width) (sym last) ∙ kept.0 ∙ ap (λ i. i.width) same_image,
        ap (λ i. i.height) (sym last) ∙ kept.1 ∙ ap (λ i. i.height) same_image,
      )

  branch :
      (im im' : Pimg) (bm : FbDesc) (c : Bool)
      → view_size bm skip ≡ u32 (im.width * im.height)
      → (if c then ok none else write_image (some im) bm) ≡ ok (some im')
      → (im'.width ≡ im.width) × (im'.height ≡ im.height)
  branch im im' bm true same e = cc
  branch im im' bm false same e = write_image-dimensions im im' bm same e

-- If a bitmap has as many pixels as the given image, and get_bitmap_pimg returns an image, its width
-- and height are those of the given image, whatever those of the bitmap.
pub bitmap_pimg_keeps_dimensions :
    (malloc : ℕ → Option Memory) (frame : Memory) (skip : Bool) (bm : FbDesc) (im im' : Pimg)
    → get_bm_desc frame ≡ ok bm
    → view_size bm skip ≡ u32 (im.width * im.height)
    → liveimg_get_bitmap_pimg malloc (some im) frame skip ≡ ok (some im')
    → (im'.width ≡ im.width) × (im'.height ≡ im.height)
bitmap_pimg_keeps_dimensions malloc frame skip bm im im' found same e =
    let after : (if is_empty bm skip then ok none else write_image malloc frame skip (some im) bm)
        ≡ ok (some im') =
      ap
        (λ o. o >>= λ bm.
          if is_empty bm skip then ok none else write_image malloc frame skip (some im) bm)
        (sym found)
      ∙ sym (pimg_step malloc frame skip (some im))
      ∙ e in
    branch malloc frame skip im im' bm (is_empty bm skip) same after

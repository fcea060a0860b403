-- ===== src/Liveimg/Viewport/TableLaws.antt =====
-- The packed image of a viewport whose description has passed the tests.
use native.Mathlib.Nat.{mul-le-mul_right}
use chdkptp_jet_tx1_jet_nano.Common.{
  ℕ, suc, ◌+◌, ◌*◌, ◌/◌, ◌%◌, ◌^◌, ◌≤◌, ◌<◌, ◌≡◌, ◌⊎◌, inl, inr, Option, some, sym, subst, refl,
  arith, Memory, Bool, true, false, if◌then◌else◌,
}
use chdkptp_jet_tx1_jet_nano.Common.Int.{ℤ, pos, signed8}
use chdkptp_jet_tx1_jet_nano.Common.Results.{ok}
use chdkptp_jet_tx1_jet_nano.Liveimg.Colour.{Rgba}
use chdkptp_jet_tx1_jet_nano.Liveimg.Frame.{eq_ℤ, get_vp_desc, get_fb_bpp}
use chdkptp_jet_tx1_jet_nano.Liveimg.Frame.Checks.{desc_of, get_vp_desc-inside}
use chdkptp_jet_tx1_jet_nano.Liveimg.Pixels.{
  yuv_group, yuvb_group, yuvc_group, from_offset, full_alpha,
}
use chdkptp_jet_tx1_jet_nano.Liveimg.Pixels.Groups.{
  yuv_pixel, uyvy_pixel, yuv_group-IsGroup_all, yuv_group-IsGroup_skip, uyvy_group-IsGroup_all,
  uyvy_group-IsGroup_skip,
}
use chdkptp_jet_tx1_jet_nano.Liveimg.Convert.Packed.{HasPixels}
use chdkptp_jet_tx1_jet_nano.Liveimg.Viewport.{
  view_width, viewport_to_packed, liveimg_get_viewport_table_rgba,
}
use chdkptp_jet_tx1_jet_nano.Liveimg.Viewport.TableCase.{table_case}

-- The pixels of a group in the frame, and how many of them are shown.
abbrev pub group_width : ℤ → ℕ
group_width type = if eq_ℤ type (pos 0) then 4 else 2

abbrev pub shown : ℤ → Bool → ℕ
shown type skip = if skip then group_width type / 2 else group_width type

-- Pixel `x` of row `r`, read from the frame by itself.
abbrev pub viewport_pixel : Memory → ℤ → Bool → (start bw r x : ℕ) → Rgba
viewport_pixel frame type skip start bw r x =
    if eq_ℤ type (pos 0)
    then yuv_pixel frame (start + r * (bw * 12 / 8) + x / shown type skip * 6) (x % shown type skip)
    else uyvy_pixel (if eq_ℤ type (pos 2) then from_offset else signed8) full_alpha frame
        (start + r * (bw * 16 / 8) + x / shown type skip * 4) (x % shown type skip)

buf_below : (bw h : ℕ) → bw * h * 12 < 2 ^ 31 → 0 < h → bw < 2 ^ 28
buf_below bw h small some_rows = let one_row : bw ≤ bw * h = grind arith in omega arith

-- The rows that the description covers lie in the frame.
rows_inside :
    (start bw h bpp k row size r : ℕ)
    → start + bw * h * bpp / 8 ≤ size
    → k * 8 ≤ bw * bpp
    → row ≤ k
    → r < h
    → start + r * k + row ≤ size
rows_inside start bw h bpp k row size r covered whole fits below =
    let all : k * 8 * h ≤ bw * bpp * h = mul-le-mul_right h whole in
    let same : bw * bpp * h ≡ bw * h * bpp = grind arith in
    let same' : k * 8 * h ≡ 8 * (h * k) = grind arith in
    let up : suc r * k ≤ h * k = mul-le-mul_right k below in
    let up' : suc r * k ≡ r * k + k = grind arith in omega arith

module _ (malloc : ℕ → Option Memory) (frame mem : Memory) (start bw n h : ℕ)
    (some_start : 0 < start) (some_pixels : 0 < n) (some_rows : 0 < h)
    (small : frame.size < 2 ^ 31) where
  abbrev Shows : ℤ → Bool → ℕ → Type 0
  Shows type skip w =
      (img : Memory) × (liveimg_get_viewport_table_rgba malloc frame skip
        ≡ ok (some (record { width = w; height = h; bytes = img })))
      × (img.size ≡ mem.size)
      × HasPixels img (viewport_pixel frame type skip start bw) w h

  yuv8-Shows :
      (skip : Bool)
      → get_vp_desc frame ≡ ok (desc_of (pos 0) start bw (4 * n) h)
      → malloc (4 * (n * shown (pos 0) skip * h)) ≡ some mem
      → mem.size ≡ 4 * (n * shown (pos 0) skip * h)
      → Shows (pos 0) skip (n * shown (pos 0) skip)
  unfolding eq_ℤ get_fb_bpp view_width viewport_to_packed
  yuv8-Shows true found given size =
      let covered = get_vp_desc-inside frame (pos 0) start bw (4 * n) h small some_start found in
      let buf = buf_below bw h (omega (arith, covered.0)) some_rows in
      table_case malloc frame mem (pos 0) true start bw (4 * n) h n (yuv_group frame true) 4 6 12 1
        (yuv_pixel frame) (yuv_group-IsGroup_skip frame) found some_start some_pixels some_rows
        (omega arith) (omega (arith, covered.0)) (omega (arith, covered.0)) covered.0.2
        (omega (arith, covered.0)) (omega arith) (λ img. refl)
        (λ r hr.
          rows_inside start bw h 12 (bw * 12 / 8) (n * 6) frame.size r covered.0.0 (omega arith)
            (omega (arith, covered.0)) hr)
        given size
  yuv8-Shows false found given size =
      let covered = get_vp_desc-inside frame (pos 0) start bw (4 * n) h small some_start found in
      let buf = buf_below bw h (omega (arith, covered.0)) some_rows in
      table_case malloc frame mem (pos 0) false start bw (4 * n) h n (yuv_group frame false) 4 6 12
        3 (yuv_pixel frame) (yuv_group-IsGroup_all frame) found some_start some_pixels some_rows
        (omega arith) (omega (arith, covered.0)) (omega (arith, covered.0)) covered.0.2
        (omega (arith, covered.0)) (omega arith) (λ img. refl)
        (λ r hr.
          rows_inside start bw h 12 (bw * 12 / 8) (n * 6) frame.size r covered.0.0 (omega arith)
            (omega (arith, covered.0)) hr)
        given size

  yuv8b-Shows :
      (skip : Bool)
      → get_vp_desc frame ≡ ok (desc_of (pos 2) start bw (2 * n) h)
      → malloc (4 * (n * shown (pos 2) skip * h)) ≡ some mem
      → mem.size ≡ 4 * (n * shown (pos 2) skip * h)
      → Shows (pos 2) skip (n * shown (pos 2) skip)
  unfolding eq_ℤ get_fb_bpp view_width viewport_to_packed yuvb_group yuvc_group
  yuv8b-Shows true found given size =
      let covered = get_vp_desc-inside frame (pos 2) start bw (2 * n) h small some_start found in
      let buf = buf_below bw h (omega (arith, covered.0)) some_rows in
      table_case malloc frame mem (pos 2) true start bw (2 * n) h n (yuvb_group frame true) 2 4 16 0
        (uyvy_pixel from_offset full_alpha frame)
        (uyvy_group-IsGroup_skip from_offset full_alpha frame) found some_start some_pixels
        some_rows (omega arith) (omega (arith, covered.0)) (omega (arith, covered.0)) covered.0.2
        (omega (arith, covered.0)) (omega arith) (λ img. refl)
        (λ r hr.
          rows_inside start bw h 16 (bw * 16 / 8) (n * 4) frame.size r covered.0.0 (omega arith)
            (omega (arith, covered.0)) hr)
        given size
  yuv8b-Shows false found given size =
      let covered = get_vp_desc-inside frame (pos 2) start bw (2 * n) h small some_start found in
      let buf = buf_below bw h (omega (arith, covered.0)) some_rows in
      table_case malloc frame mem (pos 2) false start bw (2 * n) h n (yuvb_group frame false) 2 4 16
        1 (uyvy_pixel from_offset full_alpha frame)
        (uyvy_group-IsGroup_all from_offset full_alpha frame) found some_start some_pixels some_rows
        (omega arith) (omega (arith, covered.0)) (omega (arith, covered.0)) covered.0.2
        (omega (arith, covered.0)) (omega arith) (λ img. refl)
        (λ r hr.
          rows_inside start bw h 16 (bw * 16 / 8) (n * 4) frame.size r covered.0.0 (omega arith)
            (omega (arith, covered.0)) hr)
        given size

  yuv8c-Shows :
      (skip : Bool)
      → get_vp_desc frame ≡ ok (desc_of (pos 3) start bw (2 * n) h)
      → malloc (4 * (n * shown (pos 3) skip * h)) ≡ some mem
      → mem.size ≡ 4 * (n * shown (pos 3) skip * h)
      → Shows (pos 3) skip (n * shown (pos 3) skip)
  unfolding eq_ℤ get_fb_bpp view_width viewport_to_packed yuvb_group yuvc_group
  yuv8c-Shows true found given size =
      let covered = get_vp_desc-inside frame (pos 3) start bw (2 * n) h small some_start found in
      let buf = buf_below bw h (omega (arith, covered.0)) some_rows in
      table_case malloc frame mem (pos 3) true start bw (2 * n) h n (yuvc_group frame true) 2 4 16 0
        (uyvy_pixel signed8 full_alpha frame) (uyvy_group-IsGroup_skip signed8 full_alpha frame)
        found some_start some_pixels some_rows (omega arith) (omega (arith, covered.0))
        (omega (arith, covered.0)) covered.0.2 (omega (arith, covered.0)) (omega arith)
        (λ img. refl)
        (λ r hr.
          rows_inside start bw h 16 (bw * 16 / 8) (n * 4) frame.size r covered.0.0 (omega arith)
            (omega (arith, covered.0)) hr)
        given size
  yuv8c-Shows false found given size =
      let covered = get_vp_desc-inside frame (pos 3) start bw (2 * n) h small some_start found in
      let buf = buf_below bw h (omega (arith, covered.0)) some_rows in
      table_case malloc frame mem (pos 3) false start bw (2 * n) h n (yuvc_group frame false) 2 4 16
        1 (uyvy_pixel signed8 full_alpha frame) (uyvy_group-IsGroup_all signed8 full_alpha frame)
        found some_start some_pixels some_rows (omega arith) (omega (arith, covered.0))
        (omega (arith, covered.0)) covered.0.2 (omega (arith, covered.0)) (omega arith)
        (λ img. refl)
        (λ r hr.
          rows_inside start bw h 16 (bw * 16 / 8) (n * 4) frame.size r covered.0.0 (omega arith)
            (omega (arith, covered.0)) hr)
        given size

  abbrev Reads : ℤ → Bool → Type 0
  Reads type skip =
      get_vp_desc frame ≡ ok (desc_of type start bw (group_width type * n) h)
      → malloc (4 * (n * shown type skip * h)) ≡ some mem
      → mem.size ≡ 4 * (n * shown type skip * h)
      → Shows type skip (n * shown type skip)

  shows_known :
      (type : ℤ) (skip : Bool) → (type ≡ pos 0) ⊎ (type ≡ pos 2) ⊎ (type ≡ pos 3) → Reads type skip
  unfolding eq_ℤ
  shows_known type skip (inl e) = subst (λ t. Reads t skip) (sym e) (yuv8-Shows skip)
  shows_known type skip (inr (inl e)) = subst (λ t. Reads t skip) (sym e) (yuv8b-Shows skip)
  shows_known type skip (inr (inr e)) = subst (λ t. Reads t skip) (sym e) (yuv8c-Shows skip)

-- A frame below 2 ^ 31 bytes whose viewport passes the tests, has a positive data offset and at least
-- one row, and is a positive number of whole groups wide: if the block can be allocated, the call
-- returns a table without an access outside the frame or the block, and the bytes of the table are,
-- for each row and column, those of the pixel that `viewport_pixel` reads from the frame.
pub viewport_table-HasPixels :
    (malloc : ℕ → Option Memory) (frame mem : Memory) (type : ℤ) (skip : Bool) (start bw n h : ℕ)
    → 0 < start
    → 0 < n
    → 0 < h
    → frame.size < 2 ^ 31
    → get_vp_desc frame ≡ ok (desc_of type start bw (group_width type * n) h)
    → malloc (4 * (n * shown type skip * h)) ≡ some mem
    → mem.size ≡ 4 * (n * shown type skip * h)
    → (img : Memory) × (liveimg_get_viewport_table_rgba malloc frame skip
        ≡ ok (some (record { width = n * shown type skip; height = h; bytes = img })))
      × (img.size ≡ mem.size)
      × HasPixels img (viewport_pixel frame type skip start bw) (n * shown type skip) h
viewport_table-HasPixels malloc frame mem type skip start bw n h a b c d found given size =
    shows_known malloc frame mem start bw n h a b c d type skip
      (get_vp_desc-inside frame type start bw (group_width type * n) h d a found).1 found given size

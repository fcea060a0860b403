-- ===== src/Liveimg/Viewport/TableCase.antt =====
-- The packed image of a viewport whose conversion is a loop over groups of pixels.
use native.Mathlib.Nat.{mul-le-mul_right}
use chdkptp_jet_tx1_jet_nano.Common.{
  ℕ, zero, suc, ◌+◌, ◌-◌, ◌*◌, ◌/◌, ◌%◌, ◌^◌, ◌≤◌, ◌<◌, ◌≡◌, ◌⊎◌, inl, inr, Option, some, none,
  List, ap, ap₂, sym, subst, ◌∙◌, refl, arith, Memory, u8, u32, Bool, true, false, if◌then◌else◌,
  ◌==◌, not, ◌||◌,
}
use chdkptp_jet_tx1_jet_nano.Common
use chdkptp_jet_tx1_jet_nano.Common.Int.{ℤ, pos, to_u32}
use chdkptp_jet_tx1_jet_nano.Common.Results.{Result, ok, ◌>>=◌, access, expect}
use chdkptp_jet_tx1_jet_nano.Liveimg.Colour.{Rgba}
use chdkptp_jet_tx1_jet_nano.Liveimg.Frame.{FbDesc, eq_ℤ, get_vp_desc}
use chdkptp_jet_tx1_jet_nano.Liveimg.Frame.Checks.{desc_of, eq_ℤ-zero}
use chdkptp_jet_tx1_jet_nano.Liveimg.Pixels.{rounds, write_packed}
use chdkptp_jet_tx1_jet_nano.Liveimg.Pixels.Groups.{IsGroup, group_pixel}
use chdkptp_jet_tx1_jet_nano.Liveimg.Convert.{Shape, top_down, row_bytes}
use chdkptp_jet_tx1_jet_nano.Liveimg.Convert.Packed.{HasPixels, to_packed_lem}
use chdkptp_jet_tx1_jet_nano.Liveimg.Viewport.{
  Table, view_width, view_size, is_empty, shape, viewport_to_packed, viewport_table,
  liveimg_get_viewport_table_rgba,
}

table_of : FbDesc → Bool → Memory → Result (Option Table)
table_of d skip img =
    ok (some (record { width = view_width d skip; height = to_u32 d.visible_height; bytes = img }))

packed_table : Memory → FbDesc → Bool → Memory → Result (Option Table)
packed_table frame d skip data0 =
    access (viewport_to_packed frame d skip data0) >>= λ img. table_of d skip img

is_empty_step :
    (d : FbDesc) (skip : Bool)
    → is_empty d skip ≡ (eq_ℤ d.data_start (pos 0) || (view_size d skip == 0))
unfolding is_empty
is_empty_step d skip = refl

get_step :
    (malloc : ℕ → Option Memory) (frame : Memory) (skip : Bool)
    → liveimg_get_viewport_table_rgba malloc frame skip ≡ (
        get_vp_desc frame >>= λ vp.
        if is_empty vp skip then ok none else viewport_table malloc frame vp skip)
unfolding liveimg_get_viewport_table_rgba
get_step malloc frame skip = refl

table_step :
    (malloc : ℕ → Option Memory) (frame : Memory) (d : FbDesc) (skip : Bool)
    → viewport_table malloc frame d skip ≡ (
        expect (malloc (u32 (view_size d skip * 4))) "malloc failed" >>= λ data0.
        packed_table frame d skip data0)
unfolding viewport_table packed_table table_of
table_step malloc frame d skip = refl

-- One kind of viewport: how its conversion is a loop over groups.
module _ (malloc : ℕ → Option Memory) (frame mem : Memory) (type : ℤ) (skip : Bool)
    (start bw w h n : ℕ) (group : ℤ → Option (List Rgba)) (step bytes bpp c' : ℕ)
    (value : ℕ → ℕ → Rgba) (is_group : IsGroup frame group bytes (suc c') value)
    (found : get_vp_desc frame ≡ ok (desc_of type start bw w h)) (some_start : 0 < start)
    (some_pixels : 0 < n) (some_rows : 0 < h) (whole : rounds w step ≡ n)
    (width_eq : view_width (desc_of type start bw w h) skip ≡ n * suc c') (narrow : n * suc c' ≤ bw)
    (wide : w ≤ bw) (small : bw * h * 12 < 2 ^ 31) (small_row : bw * bpp < 2 ^ 32)
    (loop : (img : Memory)
      → viewport_to_packed frame (desc_of type start bw w h) skip img
        ≡ Common.◌>>=◌
            (top_down group step bytes
              (row_bytes (to_u32 (pos bw)) bpp)
              (shape (desc_of type start bw w h))
              (pos start))
            (λ pixels. write_packed img 0 pixels))
    (inside : (r : ℕ) → r < h → start + r * (bw * bpp / 8) + n * bytes ≤ frame.size)
    (given : malloc (4 * (n * suc c' * h)) ≡ some mem)
    (mem_size : mem.size ≡ 4 * (n * suc c' * h)) where
  area_le : n * suc c' * h ≤ bw * h
  area_le = mul-le-mul_right h narrow

  area_small : n * suc c' * h < 2 ^ 28
  area_small = omega (arith, area_le)

  height_small : h < 2 ^ 28
  height_small =
      let one_wide : 1 ≤ n * suc c' = grind arith in
      let h_le : h ≤ n * suc c' * h = grind arith in omega (arith, area_small)

  buf_small : bw < 2 ^ 28
  buf_small = let bw_le : bw ≤ bw * h = grind arith in omega arith

  height_same : to_u32 (pos h) ≡ h
  height_same = omega (arith, height_small)

  pixels_not_zero : (n * suc c' * h == 0) ≡ false
  pixels_not_zero =
      let one_wide : 1 ≤ n * suc c' = grind arith in
      let one : 1 ≤ n * suc c' * h = grind arith in ground arith

  size_eq : view_size (desc_of type start bw w h) skip ≡ n * suc c' * h
  unfolding view_size
  size_eq = rw (width_eq, height_same) (omega (arith, area_small))

  not_empty : is_empty (desc_of type start bw w h) skip ≡ false
  not_empty =
      is_empty_step (desc_of type start bw w h) skip
      ∙ ap₂ ◌||◌ (eq_ℤ-zero start some_start) (ap (λ v. v == 0) size_eq ∙ pixels_not_zero)

  same_shape : shape (desc_of type start bw w h) ≡ record { buf_width = bw; width = w; height = h }
  same_shape =
      let same_buf : to_u32 (pos bw) ≡ bw = omega (arith, buf_small) in
      let same_width : to_u32 (pos w) ≡ w = omega (arith, buf_small) in
      rw (same_buf, same_width, height_same)

  same_row : row_bytes (to_u32 (pos bw)) bpp ≡ bw * bpp / 8
  same_row = let same : to_u32 (pos bw) ≡ bw = omega (arith, buf_small) in rw same (omega arith)

  same_bytes : u32 (view_size (desc_of type start bw w h) skip * 4) ≡ 4 * (n * suc c' * h)
  same_bytes = rw size_eq (omega (arith, area_small))

  pub table_case :
      (img : Memory) × (liveimg_get_viewport_table_rgba malloc frame skip
        ≡ ok (some (record { width = n * suc c'; height = h; bytes = img })))
      × (img.size ≡ mem.size)
      × HasPixels img (group_pixel value bytes (suc c') (bw * bpp / 8) start) (n * suc c') h
  unfolding packed_table table_of
  table_case =
      let d = desc_of type start bw w h in
      let s : Shape = record { buf_width = bw; width = w; height = h } in
      let room : 4 * (h * (n * suc c')) ≤ mem.size = grind arith in
      let (img, e, same, pixels) =
        to_packed_lem frame group bytes c' value is_group step (bw * bpp / 8) start n s whole inside
          mem room in
      let converted : viewport_to_packed frame d skip mem ≡ some img =
        loop mem
        ∙ ap₂
            (λ row shaped.
              Common.◌>>=◌ (top_down group step bytes row shaped (pos start))
                λ pixels. write_packed mem 0 pixels)
            same_row same_shape
        ∙ e in
      (
        img,
        get_step malloc frame skip
            ∙ ap
                (λ r. r >>= λ vp.
                  if is_empty vp skip then ok none else viewport_table malloc frame vp skip)
                found
            ∙ ap (λ c. if c then ok none else viewport_table malloc frame d skip) not_empty
            ∙ table_step malloc frame d skip
            ∙ ap (λ o. expect o "malloc failed" >>= λ data0. packed_table frame d skip data0)
                (ap malloc same_bytes ∙ given)
            ∙ ap (λ o. access o >>= λ img. table_of d skip img) converted
            ∙ ap₂ (λ a b. ok (some (record { width = a; height = b; bytes = img }))) width_eq
                height_same,
        same,
        pixels,
      )

-- ===== src/Liveimg/Colour.antt =====
-- liveimg.c: one pixel from YUV to RGB, in integers scaled by 4096.
pub mod Rounding
use chdkptp_jet_tx1_jet_nano.Common.{ℕ, ◌+◌, ◌*◌, ltb, if◌then◌else◌}
use chdkptp_jet_tx1_jet_nano.Common.Int.{
  ℤ, pos, negsuc, pos_part, ◌+ℤ◌, ◌-ℤ◌, ◌*ℤ◌, shr_ℤ, ltb_ℤ, signed8,
}

-- `palette_entry_rgba_t`, and a pixel of a packed image.
pub record Rgba : Type 0 where
  pub r : ℕ
  pub g : ℕ
  pub b : ℕ
  pub a : ℕ

unfoldable pub clip_yuv : ℤ → ℕ
clip_yuv v = if ltb_ℤ v (pos 0) then 0 else if ltb_ℤ (pos 255) v then 255 else pos_part v

-- A component `y` is a byte, `u` and `v` are signed.
unfoldable pub yuv_to_r : ℕ → ℤ → ℕ
unfolding clip_yuv
yuv_to_r y v = clip_yuv (shr_ℤ (pos (y * 4096) +ℤ v *ℤ pos 5743 +ℤ pos 2048) 12)

unfoldable pub yuv_to_g : ℕ → ℤ → ℤ → ℕ
unfolding clip_yuv
yuv_to_g y u v = clip_yuv (shr_ℤ (pos (y * 4096) -ℤ u *ℤ pos 1411 -ℤ v *ℤ pos 2925 +ℤ pos 2048) 12)

unfoldable pub yuv_to_b : ℕ → ℤ → ℕ
unfolding clip_yuv
yuv_to_b y u = clip_yuv (shr_ℤ (pos (y * 4096) +ℤ u *ℤ pos 7258 +ℤ pos 2048) 12)

-- The three components of one pixel, with its alpha.
unfoldable pub yuv_to_rgba : ℕ → ℤ → ℤ → ℕ → Rgba
unfolding yuv_to_r yuv_to_g yuv_to_b
yuv_to_rgba y u v alpha = record {
  r = yuv_to_r y v;
  g = yuv_to_g y u v;
  b = yuv_to_b y u;
  a = alpha;
}

unfoldable pub clamp_uint8 : ℕ → ℕ
clamp_uint8 v = if ltb 255 v then 255 else v

unfoldable pub clamp_int8 : ℤ → ℤ
clamp_int8 v = if ltb_ℤ (pos 127) v then pos 127 else if ltb_ℤ v (negsuc 127) then negsuc 127 else v

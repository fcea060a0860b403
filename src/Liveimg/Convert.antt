-- ===== src/Liveimg/Convert.antt =====
-- liveimg.c: the conversions of a whole buffer, top row first into packed pixels, or bottom row
-- first into planes.
pub mod Loops
pub mod Packed
use chdkptp_jet_tx1_jet_nano.Common.{
  ℕ, ◌+◌, ◌-◌, ◌*◌, ◌/◌, ◌^◌, Option, Bool, List, u32, Memory, ◌>>=◌,
}
use chdkptp_jet_tx1_jet_nano.Common.Int.{ℤ, pos, ◌+ℤ◌, ◌-ℤ◌}
use chdkptp_jet_tx1_jet_nano.Liveimg.Colour.{Rgba}
use chdkptp_jet_tx1_jet_nano.Liveimg.Pixels.{
  collect, rounds, yuv_group, yuvb_group, yuvc_group, yuvb_bitmap_group, opacity_group,
  write_packed, merge_alpha, write_rgb, write_rgba, write_plane,
}

-- The numbers that describe a buffer, as `unsigned`.
pub record Shape : Type 0 where
  pub buf_width : ℕ
  pub width : ℕ
  pub height : ℕ

-- `(buf_width*12)/8` and `(buf_width*16)/8`.
abbrev pub row_bytes : ℕ → ℕ → ℕ
row_bytes buf_width bpp = u32 (buf_width * bpp) / 8

-- The two loops over a buffer: groups of `step` pixels and `bytes` bytes, rows of `row_inc` bytes.
unfoldable pub top_down :
    {A : Type 0} → (ℤ → Option (List A)) → (step bytes row_inc : ℕ) → Shape → ℤ → Option (List A)
unfolding collect
top_down group step bytes row_inc s start =
    collect (collect group (λ p. p +ℤ pos bytes) (rounds s.width step)) (λ p. p +ℤ pos row_inc)
      s.height start

-- `p_yuv + (height - 1) * row_inc`, and back by one row in each round.
unfoldable pub bottom_up :
    {A : Type 0} → (ℤ → Option (List A)) → (step bytes row_inc : ℕ) → Shape → ℤ → Option (List A)
unfolding collect
bottom_up group step bytes row_inc s start =
    collect (collect group (λ p. p +ℤ pos bytes) (rounds s.width step)) (λ p. p -ℤ pos row_inc)
      s.height (start +ℤ pos (u32 (u32 (s.height + 2 ^ 32 - 1) * row_inc)))

unfoldable pub yuv_live_to_packed_rgba : Memory → ℤ → Shape → Bool → Memory → Option Memory
unfolding top_down yuv_group write_packed
yuv_live_to_packed_rgba m p_yuv s skip img = do
  pixels ← top_down (yuv_group m skip) 4 6 (row_bytes s.buf_width 12) s p_yuv
  write_packed img 0 pixels

unfoldable pub yuvb_live_to_packed_rgba : Memory → ℤ → Shape → Bool → Memory → Option Memory
unfolding top_down yuvb_group write_packed
yuvb_live_to_packed_rgba m p_yuv s skip img = do
  pixels ← top_down (yuvb_group m skip) 2 4 (row_bytes s.buf_width 16) s p_yuv
  write_packed img 0 pixels

unfoldable pub yuvc_live_to_packed_rgba : Memory → ℤ → Shape → Bool → Memory → Option Memory
unfolding top_down yuvc_group write_packed
yuvc_live_to_packed_rgba m p_yuv s skip img = do
  pixels ← top_down (yuvc_group m skip) 2 4 (row_bytes s.buf_width 16) s p_yuv
  write_packed img 0 pixels

unfoldable pub yuvb_live_bitmap_to_packed_rgba : Memory → ℤ → Shape → Bool → Memory → Option Memory
unfolding top_down yuvb_bitmap_group write_packed
yuvb_live_bitmap_to_packed_rgba m p_yuv s skip img = do
  pixels ← top_down (yuvb_bitmap_group m skip) 2 4 (row_bytes s.buf_width 16) s p_yuv
  write_packed img 0 pixels

unfoldable pub opacity_live_merge_to_packed_rgba :
    Memory → ℤ → Shape → Bool → Memory → Option Memory
unfolding top_down opacity_group merge_alpha
opacity_live_merge_to_packed_rgba m p_opac s skip img = do
  alphas ← top_down (opacity_group m skip) 2 2 s.buf_width s p_opac
  merge_alpha img 0 alphas

-- The planes of `n` bytes each that follow one another in `img`.
unfoldable pub yuv_live_to_cd_rgb : Memory → ℤ → Shape → Bool → Memory → ℕ → Option Memory
unfolding bottom_up yuv_group write_rgb
yuv_live_to_cd_rgb m p_yuv s skip img n = do
  pixels ← bottom_up (yuv_group m skip) 4 6 (row_bytes s.buf_width 12) s p_yuv
  write_rgb img 0 n (2 * n) pixels

unfoldable pub yuvb_live_to_cd_rgb : Memory → ℤ → Shape → Bool → Memory → ℕ → Option Memory
unfolding bottom_up yuvb_group write_rgb
yuvb_live_to_cd_rgb m p_yuv s skip img n = do
  pixels ← bottom_up (yuvb_group m skip) 2 4 (row_bytes s.buf_width 16) s p_yuv
  write_rgb img 0 n (2 * n) pixels

unfoldable pub yuvc_live_to_cd_rgb : Memory → ℤ → Shape → Bool → Memory → ℕ → Option Memory
unfolding bottom_up yuvc_group write_rgb
yuvc_live_to_cd_rgb m p_yuv s skip img n = do
  pixels ← bottom_up (yuvc_group m skip) 2 4 (row_bytes s.buf_width 16) s p_yuv
  write_rgb img 0 n (2 * n) pixels

unfoldable pub yuvb_live_to_cd_rgba : Memory → ℤ → Shape → Bool → Memory → ℕ → Option Memory
unfolding bottom_up yuvb_bitmap_group write_rgba
yuvb_live_to_cd_rgba m p_yuv s skip img n = do
  pixels ← bottom_up (yuvb_bitmap_group m skip) 2 4 (row_bytes s.buf_width 16) s p_yuv
  write_rgba img 0 n (2 * n) (3 * n) pixels

unfoldable pub opacity_live_to_cd_a : Memory → ℤ → Shape → Bool → Memory → ℕ → Option Memory
unfolding bottom_up opacity_group write_plane
opacity_live_to_cd_a m p_opac s skip img n = do
  alphas ← bottom_up (opacity_group m skip) 2 2 s.buf_width s p_opac
  write_plane img (3 * n) alphas

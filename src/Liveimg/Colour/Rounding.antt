-- ===== src/Liveimg/Colour/Rounding.antt =====
-- How far the integer conversion is from the formula that it stands for.
use chdkptp_jet_tx1_jet_nano.Common.{ℕ, ◌+◌, ◌*◌, ◌≤◌, ◌≡◌, ◌⊎◌, arith}
use chdkptp_jet_tx1_jet_nano.Common.Int.{ℤ, pos, ◌+ℤ◌, ◌-ℤ◌, ◌*ℤ◌, ◌≤ℤ◌, shr_ℤ}
use chdkptp_jet_tx1_jet_nano.Liveimg.Colour.{yuv_to_r, yuv_to_g, yuv_to_b, clip_yuv}

-- The byte `n` is the number nearest to `t` / 4096, or the end of the range that `t` lies beyond.
pub record IsNearest (n : ℕ) (t : ℤ) : Type 0 where
  pub byte : n ≤ 255
  pub not_above : (pos (4096 * n) ≤ℤ t +ℤ pos 2048) ⊎ (n ≡ 0)
  pub not_below : (t +ℤ pos 2048 ≤ℤ pos (4096 * n + 4095)) ⊎ (n ≡ 255)

clip_yuv-IsNearest : (t : ℤ) → IsNearest (clip_yuv (shr_ℤ (t +ℤ pos 2048) 12)) t
unfolding clip_yuv
clip_yuv-IsNearest t = ground arith

-- For a brightness and two signed colours, each component is the byte nearest to its formula with
-- coefficients in units of 1/4096, or the end of the range of a byte that the formula lies beyond.
pub yuv_to_rgb-IsNearest :
    (y : ℕ) (u v : ℤ)
    → IsNearest (yuv_to_r y v) (pos (y * 4096) +ℤ v *ℤ pos 5743)
      × IsNearest (yuv_to_g y u v) (pos (y * 4096) -ℤ u *ℤ pos 1411 -ℤ v *ℤ pos 2925)
      × IsNearest (yuv_to_b y u) (pos (y * 4096) +ℤ u *ℤ pos 7258)
unfolding yuv_to_r yuv_to_g yuv_to_b
yuv_to_rgb-IsNearest y u v = (clip_yuv-IsNearest _, clip_yuv-IsNearest _, clip_yuv-IsNearest _)

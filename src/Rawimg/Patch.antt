-- ===== src/Rawimg/Patch.antt =====
-- rawimg.c: interpolation over bad pixels.
pub mod Laws
pub mod Loops
use chdkptp_jet_tx1_jet_nano.Common.{
  ℕ, zero, suc, ◌+◌, ◌-◌, ◌/◌, ◌%◌, ◌^◌, Option, some, List, [], ◌∷◌, ◌==◌, ltb, leb, if◌then◌else◌,
  u32, Memory, ◌>>=◌,
}
use chdkptp_jet_tx1_jet_nano.Rawimg.Image.{
  RawImage, cfa_color, cfa_green, image_get, image_set, rawimg_get_pixel_safe,
}

-- `x - k` on a 32-bit unsigned.
abbrev pub minus : ℕ → ℕ → ℕ
minus x k = u32 (x + 2 ^ 32 - k)

-- The four neighbours of the pixel's own colour.
unfoldable pub neighbours : RawImage → Memory → ℕ → ℕ → Option (List ℕ)
neighbours img m x y =
    if cfa_color img x y == cfa_green
    then (do
      a ← rawimg_get_pixel_safe img m (minus x 1) (minus y 1)
      b ← rawimg_get_pixel_safe img m (u32 (x + 1)) (minus y 1)
      c ← rawimg_get_pixel_safe img m (minus x 1) (u32 (y + 1))
      d ← rawimg_get_pixel_safe img m (u32 (x + 1)) (u32 (y + 1))
      some (a ∷ b ∷ c ∷ d ∷ []))
    else (do
      a ← rawimg_get_pixel_safe img m (minus x 2) y
      b ← rawimg_get_pixel_safe img m (u32 (x + 2)) y
      c ← rawimg_get_pixel_safe img m x (minus y 2)
      d ← rawimg_get_pixel_safe img m x (u32 (y + 2))
      some (a ∷ b ∷ c ∷ d ∷ []))

-- The loop that sums the neighbours above the black level, from `total` and `count` on.
unfoldable pub tally : ℕ → List ℕ → ℕ → ℕ → ℕ × ℕ
tally black [] total count = (total, count)
tally black (n ∷ neigh) total count =
    tally black neigh (if ltb black n then u32 (total + n) else total)
      (if ltb black n then count + 1 else count)

-- The new memory, and 1 if the pixel was patched.
unfoldable pub rawimg_patch_pixel : RawImage → Memory → ℕ → ℕ → Option (Memory × ℕ)
rawimg_patch_pixel img m x y = do
  neigh ← neighbours img m x y
  let (total, count) = tally img.black_level neigh 0 0
  if count == 0 then some (m, 0) else (do m' ← image_set img m x y (total / count); some (m', 1))

-- The body of the inner loop.
unfoldable pub patch_if_bad : RawImage → ℕ → Memory → ℕ → ℕ → ℕ → Option (Memory × ℕ)
patch_if_bad img badval m x y count = do
  val ← image_get img m x y
  if leb val badval
      then (do r ← rawimg_patch_pixel img m x y; some (r.0, u32 (count + r.1)))
      else some (m, count)

-- The inner loop at `x` with `n` rounds left.
unfoldable pub patch_row : RawImage → ℕ → ℕ → ℕ → ℕ → Memory → ℕ → Option (Memory × ℕ)
patch_row img badval y zero x m count = some (m, count)
patch_row img badval y (suc n) x m count = do
  r ← patch_if_bad img badval m x y count
  patch_row img badval y n (x + 1) r.0 r.1

-- The outer loop at `y` with `n` rounds left.
unfoldable pub patch_rows : RawImage → ℕ → ℕ → ℕ → Memory → ℕ → Option (Memory × ℕ)
patch_rows img badval zero y m count = some (m, count)
patch_rows img badval (suc n) y m count = do
  r ← patch_row img badval y (img.active_right - img.active_left) img.active_left m count
  patch_rows img badval n (y + 1) r.0 r.1

unfoldable pub rawimg_lua_patch_pixels : RawImage → Memory → ℕ → Option (Memory × ℕ)
rawimg_lua_patch_pixels img m badval =
    patch_rows img badval (img.active_bottom - img.active_top) img.active_top m 0

-- ===== src/Liveimg/Pixels.antt =====
-- liveimg.c: the pixels that the conversions read from a buffer, in the order in which they write
-- them, and the writes. A pointer into the frame is an offset, as in Frame.
pub mod Streams
pub mod Writes
pub mod Groups
use chdkptp_jet_tx1_jet_nano.Common.{
  ℕ, zero, suc, ◌+◌, ◌-◌, ◌*◌, ◌/◌, ◌%◌, ◌^◌, Option, none, some, Bool, List, [], ◌∷◌, ◌++◌, ◌==◌,
  if◌then◌else◌, u8, Memory, store, ◌>>=◌,
}
use chdkptp_jet_tx1_jet_nano.Common.Int.{ℤ, pos, ◌+ℤ◌, signed8}
use chdkptp_jet_tx1_jet_nano.Liveimg.Colour.{Rgba, yuv_to_rgba}
use chdkptp_jet_tx1_jet_nano.Liveimg.Frame.{load_at}

-- A loop that moves a pointer by `next` in each round, with the rounds left: what the rounds give,
-- one after the other.
unfoldable pub collect {ℓ} :
    {A : Type ℓ} → (ℤ → Option (List A)) → (ℤ → ℤ) → ℕ → ℤ → Option (List A)
collect body next zero p = some []
collect body next (suc n) p = do
  first ← body p
  rest ← collect body next n (next p)
  some (first ++ rest)

-- The rounds of `for(x=0;x<width;x+=step)`.
abbrev pub rounds : ℕ → ℕ → ℕ
rounds width step = (width + step - 1) / step

-- The bodies of the inner loops. `U Y V Y Y Y` is four pixels, of which two are skipped on demand.
unfoldable pub yuv_group : Memory → Bool → ℤ → Option (List Rgba)
unfolding load_at
yuv_group m skip p = do
  u ← load_at m p
  y1 ← load_at m (p +ℤ pos 1)
  v ← load_at m (p +ℤ pos 2)
  y3 ← load_at m (p +ℤ pos 3)
  let first = yuv_to_rgba y1 (signed8 u) (signed8 v) 255
  let second = yuv_to_rgba y3 (signed8 u) (signed8 v) 255
  if skip then some (first ∷ second ∷ []) else do
    y4 ← load_at m (p +ℤ pos 4)
    y5 ← load_at m (p +ℤ pos 5)
    let third = yuv_to_rgba y4 (signed8 u) (signed8 v) 255
    let fourth = yuv_to_rgba y5 (signed8 u) (signed8 v) 255
    some (first ∷ second ∷ third ∷ fourth ∷ [])

-- `char p2 = p[2] - 0x80`.
abbrev pub from_offset : ℕ → ℤ
from_offset b = signed8 (u8 (b + 0x80))

-- `U Y V Y` is two pixels: `chroma` reads the bytes of U and V, `alpha` the four bytes.
unfoldable pub uyvy_group :
    (chroma : ℕ → ℤ) (alpha : ℕ → ℕ → ℕ → ℕ → ℕ) → Memory → Bool → ℤ → Option (List Rgba)
unfolding load_at
uyvy_group chroma alpha m skip p = do
  u ← load_at m p
  y1 ← load_at m (p +ℤ pos 1)
  v ← load_at m (p +ℤ pos 2)
  y3 ← load_at m (p +ℤ pos 3)
  let opaque = alpha u y1 v y3
  let first = yuv_to_rgba y1 (chroma u) (chroma v) opaque
  let second = yuv_to_rgba y3 (chroma u) (chroma v) opaque
  if skip then some (first ∷ []) else some (first ∷ second ∷ [])

abbrev pub full_alpha : ℕ → ℕ → ℕ → ℕ → ℕ
full_alpha u y1 v y3 = 255

-- `*u==0x800080?0:255` on the four bytes.
abbrev pub black_alpha : ℕ → ℕ → ℕ → ℕ → ℕ
black_alpha u y1 v y3 = if u + y1 * 2 ^ 8 + v * 2 ^ 16 + y3 * 2 ^ 24 == 0x800080 then 0 else 255

unfoldable pub yuvb_group : Memory → Bool → ℤ → Option (List Rgba)
unfolding uyvy_group
yuvb_group m skip p = uyvy_group from_offset full_alpha m skip p

unfoldable pub yuvc_group : Memory → Bool → ℤ → Option (List Rgba)
unfolding uyvy_group
yuvc_group m skip p = uyvy_group signed8 full_alpha m skip p

unfoldable pub yuvb_bitmap_group : Memory → Bool → ℤ → Option (List Rgba)
unfolding uyvy_group
yuvb_bitmap_group m skip p = uyvy_group from_offset black_alpha m skip p

unfoldable pub opacity_group : Memory → Bool → ℤ → Option (List ℕ)
unfolding load_at
opacity_group m skip p = do
  first ← load_at m p
  if skip then some (first ∷ []) else do second ← load_at m (p +ℤ pos 1); some (first ∷ second ∷ [])

-- `*img++ = ...` four times for each pixel.
unfoldable pub write_packed : Memory → ℕ → List Rgba → Option Memory
write_packed img at [] = some img
write_packed img at (c ∷ cs) = do
  img1 ← store img at c.r
  img2 ← store img1 (at + 1) c.g
  img3 ← store img2 (at + 2) c.b
  img4 ← store img3 (at + 3) c.a
  write_packed img4 (at + 4) cs

-- `img[3] = ...; img += 4`.
unfoldable pub merge_alpha : Memory → ℕ → List ℕ → Option Memory
merge_alpha img at [] = some img
merge_alpha img at (c ∷ cs) = do img1 ← store img (at + 3) c; merge_alpha img1 (at + 4) cs

-- `*r++ = ...; *g++ = ...; *b++ = ...` where the planes begin at `r`, `g` and `b` of one block.
unfoldable pub write_rgb : Memory → ℕ → ℕ → ℕ → List Rgba → Option Memory
write_rgb img r g b [] = some img
write_rgb img r g b (c ∷ cs) = do
  img1 ← store img r c.r
  img2 ← store img1 g c.g
  img3 ← store img2 b c.b
  write_rgb img3 (r + 1) (g + 1) (b + 1) cs

unfoldable pub write_rgba : Memory → ℕ → ℕ → ℕ → ℕ → List Rgba → Option Memory
write_rgba img r g b a [] = some img
write_rgba img r g b a (c ∷ cs) = do
  img1 ← store img r c.r
  img2 ← store img1 g c.g
  img3 ← store img2 b c.b
  img4 ← store img3 a c.a
  write_rgba img4 (r + 1) (g + 1) (b + 1) (a + 1) cs

unfoldable pub write_plane : Memory → ℕ → List ℕ → Option Memory
write_plane img a [] = some img
write_plane img a (c ∷ cs) = do img1 ← store img a c; write_plane img1 (a + 1) cs

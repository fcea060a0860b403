-- ===== src/Liveimg/Planar.antt =====
-- liveimg.c: the planar images (`liveimg_pimg_t`), each channel in a plane of its own with the bottom
-- row first.

use chdkptp_jet_tx1_jet_nano.Common.{
  ℕ, zero, suc, ◌+◌, ◌*◌, Option, none, some, Bool, true, false, ◌==◌, if◌then◌else◌, u32, Memory,
  load, store, ◌>>=◌,
}
use chdkptp_jet_tx1_jet_nano.Common.Results
use chdkptp_jet_tx1_jet_nano.Common.Results.{Result, err, ok, expect, access}

-- The block of a live image, which begins with the plane of red; the planes of green and of blue
-- follow at `plane` and `2 * plane`, and that of alpha, if there is one, at `3 * plane`.
pub record Planes : Type 0 where
  pub block : Memory
  pub plane : ℕ
  pub has_alpha : Bool

-- A killed image has no planes.
pub record Pimg : Type 0 where
  pub width : ℕ
  pub height : ℕ
  pub planes : Option Planes

unfoldable pub pimg_destroy : Pimg → Pimg
pimg_destroy im = record { width = 0; height = 0; planes = none }

unfoldable pub pimg_gc : Pimg → Pimg
unfolding pimg_destroy
pimg_gc im = pimg_destroy im

unfoldable pub pimg_kill : Pimg → Pimg
unfolding pimg_destroy
pimg_kill im = pimg_destroy im

abbrev pub alive : Option Planes → Result Planes
alive planes = expect planes "dead pimg"

unfoldable pub pimg_get_width : Pimg → Result ℕ
pimg_get_width im = Results.◌>>=◌ (alive im.planes) λ planes. ok im.width

unfoldable pub pimg_get_height : Pimg → Result ℕ
pimg_get_height im = Results.◌>>=◌ (alive im.planes) λ planes. ok im.height

unfoldable pub pimg_create : Pimg
pimg_create = record { width = 0; height = 0; planes = none }

-- `malloc` is the C library's: `none` is its null pointer.
module _ (malloc : ℕ → Option Memory) where
  pimg_init : ℕ → Bool → ℕ → ℕ → Option Pimg
  pimg_init depth has_alpha width height =
      let size = u32 (width * height) in
      if size == 0 then none else do
        block ← malloc (u32 (size * depth))
        some (record {
          width = width;
          height = height;
          planes = some (record { block = block; plane = size; has_alpha = has_alpha });
        })

  unfoldable pub pimg_init_rgb : ℕ → ℕ → Option Pimg
  unfolding pimg_init
  pimg_init_rgb width height = pimg_init 3 false width height

  unfoldable pub pimg_init_rgba : ℕ → ℕ → Option Pimg
  unfolding pimg_init
  pimg_init_rgba width height = pimg_init 4 true width height

  -- `lbuf_reuse_or_create`: the given buffer if its length fits, or a new one.
  unfoldable pub lbuf_reuse_or_create : Option Memory → ℕ → Result Memory
  lbuf_reuse_or_create none len = expect (malloc len) "malloc failed"
  lbuf_reuse_or_create (some lb) len =
      if lb.size == len then ok lb else expect (malloc len) "malloc failed"

  -- One channel: `*p++ = *r++`.
  copy_byte : Memory → ℕ → Memory → ℕ → Option Memory
  copy_byte src i out p = do v ← load src i; store out p v

  copy_alpha : Planes → ℕ → Memory → ℕ → Option Memory
  unfolding copy_byte
  copy_alpha planes i out p =
      if planes.has_alpha
      then copy_byte planes.block (3 * planes.plane + i) out p
      else store out p 255

  unfoldable pub pack_pixel : Planes → Bool → ℕ → Memory → ℕ → Option Memory
  unfolding copy_byte copy_alpha
  pack_pixel planes alpha i out p = do
    out1 ← copy_byte planes.block i out p
    out2 ← copy_byte planes.block (planes.plane + i) out1 (p + 1)
    out3 ← copy_byte planes.block (2 * planes.plane + i) out2 (p + 2)
    if alpha then copy_alpha planes i out3 (p + 3) else some out3

  -- The inner loop with `n` rounds left: pixel `i` of the planes goes to offset `p`.
  unfoldable pub pack_row : Planes → Bool → ℕ → ℕ → Memory → ℕ → Option Memory
  unfolding pack_pixel
  pack_row planes alpha zero i out p = some out
  pack_row planes alpha (suc n) i out p = do
    out1 ← pack_pixel planes alpha i out p
    pack_row planes alpha n (i + 1) out1 (p + (if alpha then 4 else 3))

  -- The outer loop, from the bottom row up: `y` rows are left.
  unfoldable pub pack_rows : Planes → Bool → ℕ → ℕ → ℕ → Memory → Option Memory
  unfolding pack_row
  pack_rows planes alpha width zero i out = some out
  pack_rows planes alpha width (suc y) i out = do
    out1 ← pack_row planes alpha width i out (u32 (u32 (y * width) * (if alpha then 4 else 3)))
    pack_rows planes alpha width y (i + width) out1

  -- A killed image has no rows.
  abbrev pub pack_planes : Option Planes → Bool → ℕ → ℕ → Memory → Result Memory
  pack_planes none alpha width height out = ok out
  pack_planes (some planes) alpha width height out =
      access (pack_rows planes alpha width height 0 out)

  unfoldable pub pimg_to_packed : Pimg → Bool → Option Memory → Result Memory
  unfolding lbuf_reuse_or_create pack_rows
  pimg_to_packed im alpha reuse =
      Results.◌>>=◌
        (lbuf_reuse_or_create reuse (u32 (u32 (im.width * im.height) * (if alpha then 4 else 3))))
        λ out. pack_planes im.planes alpha im.width im.height out

-- ===== src/Liveimg/Split.antt =====
-- liveimg.c: a viewport taken apart into buffers of brightness and of the two colours.

use chdkptp_jet_tx1_jet_nano.Common.{
  ℕ, zero, suc, ◌+◌, ◌-◌, ◌*◌, ◌/◌, ◌%◌, ◌^◌, Option, none, some, Bool, true, false, not, ◌||◌,
  ◌&&◌, ◌==◌, ltb, if◌then◌else◌, u8, u32, Memory, List, [], ◌∷◌, map, store,
}
use chdkptp_jet_tx1_jet_nano.Common
use chdkptp_jet_tx1_jet_nano.Common.Int.{ℤ, pos, ◌+ℤ◌, ◌*ℤ◌, div_ℤ, to_u32}
use chdkptp_jet_tx1_jet_nano.Common.Results.{Result, ok, ◌>>=◌, ◌>>◌, raise_if, access}
use chdkptp_jet_tx1_jet_nano.Liveimg.Frame.{
  FbDesc, load_at, eq_ℤ, in_int, get_vp_desc, lv_fb_yuv8, lv_fb_yuv8b,
}
use chdkptp_jet_tx1_jet_nano.Liveimg.Planar.{lbuf_reuse_or_create}
use chdkptp_jet_tx1_jet_nano.Liveimg.Pixels.{collect, rounds}
use chdkptp_jet_tx1_jet_nano.Liveimg.Convert.{row_bytes}

-- One group: the bytes of brightness, and one byte of each colour.
pub record Sample : Type 0 where
  pub y : List ℕ
  pub u : ℕ
  pub v : ℕ

-- `p[0] - 0x80` cut to a byte, for the old type only.
abbrev pub move_zero : ℕ → ℕ
move_zero b = u8 (b + 0x80)

-- Only the channels that are asked for are read.
abbrev pub when : Bool → Option ℕ → Option ℕ
when true o = o
when false o = some 0

abbrev pub kept : Bool → List ℕ → List ℕ
kept true ys = ys
kept false ys = []

unfoldable pub uyvyyy_sample : Memory → (want_y want_uv : Bool) → ℤ → Option (List Sample)
unfolding load_at
uyvyyy_sample m want_y want_uv p = Common.◌>>=◌ (when want_y (load_at m (p +ℤ pos 1))) λ y1.
    Common.◌>>=◌ (when want_y (load_at m (p +ℤ pos 3))) λ y3.
      Common.◌>>=◌ (when want_y (load_at m (p +ℤ pos 4))) λ y4.
        Common.◌>>=◌ (when want_y (load_at m (p +ℤ pos 5))) λ y5.
          Common.◌>>=◌ (when want_uv (load_at m p)) λ u.
            Common.◌>>=◌ (when want_uv (load_at m (p +ℤ pos 2))) λ v. some (
              record { y = kept want_y (y1 ∷ y3 ∷ y4 ∷ y5 ∷ []); u = move_zero u; v = move_zero v }
              ∷ [])

unfoldable pub uyvy_sample : Memory → (want_y want_uv : Bool) → ℤ → Option (List Sample)
unfolding load_at
uyvy_sample m want_y want_uv p = Common.◌>>=◌ (when want_y (load_at m (p +ℤ pos 1))) λ y1.
    Common.◌>>=◌ (when want_y (load_at m (p +ℤ pos 3))) λ y3.
      Common.◌>>=◌ (when want_uv (load_at m p)) λ u.
        Common.◌>>=◌ (when want_uv (load_at m (p +ℤ pos 2)))
          λ v. some (record { y = kept want_y (y1 ∷ y3 ∷ []); u = u; v = v } ∷ [])

-- `*data++ = ...` for each byte of a list.
unfoldable pub write_list : Memory → ℕ → List ℕ → Option Memory
write_list m at [] = some m
write_list m at (b ∷ bs) = Common.◌>>=◌ (store m at b) λ m1. write_list m1 (at + 1) bs

-- The bytes of brightness of all samples.
unfoldable pub all_y : List Sample → List ℕ
all_y [] = []
all_y (s ∷ ss) = Common.◌++◌ s.y (all_y ss)

-- The three buffers; those that are not asked for are absent.
pub record Parts : Type 0 where
  pub y_data : Option Memory
  pub u_data : Option Memory
  pub v_data : Option Memory

abbrev pub write_part : Option Memory → List ℕ → Result (Option Memory)
write_part none bs = ok none
write_part (some m) bs = access (Common.◌>>=◌ (write_list m 0 bs) λ m1. some (some m1))

module _ (malloc : ℕ → Option Memory) where
  -- `lbuf_reuse_or_create` for a channel that is asked for; a negative size becomes an `unsigned`.
  buffer_for : Bool → Option Memory → ℤ → Result (Option Memory)
  unfolding lbuf_reuse_or_create
  buffer_for true reuse size = do m ← lbuf_reuse_or_create malloc reuse (to_u32 size); ok (some m)
  buffer_for false reuse size = ok none

  -- `y_size`: 0 where brightness is not asked for.
  unfoldable pub y_size_of : FbDesc → Bool → Bool → Result ℤ
  unfolding in_int
  y_size_of desc want_y full_buffer =
      if want_y
      then in_int
          ((if full_buffer then desc.buffer_width else desc.visible_width) *ℤ desc.visible_height)
      else ok (pos 0)

  -- The loops with `width` pixels to a row.
  unfoldable pub samples : Memory → FbDesc → Bool → Bool → ℕ → Option (List Sample)
  unfolding eq_ℤ uyvyyy_sample uyvy_sample collect
  samples frame desc want_y want_uv width =
      let buf_width = to_u32 desc.buffer_width in
      let height = to_u32 desc.visible_height in
      if eq_ℤ desc.fb_type lv_fb_yuv8
      then collect (collect (uyvyyy_sample frame want_y want_uv) (λ p. p +ℤ pos 6) (rounds width 4))
          (λ p. p +ℤ pos (row_bytes buf_width 12)) height desc.data_start
      else collect (collect (uyvy_sample frame want_y want_uv) (λ p. p +ℤ pos 4) (rounds width 2))
          (λ p. p +ℤ pos (row_bytes buf_width 16)) height desc.data_start

  -- `channels` is 1 for brightness, 2 for the colours and 3 for both.
  unfoldable pub get_split_yuv : Memory → ℕ → Bool → Parts → Result Parts
  unfolding get_vp_desc eq_ℤ y_size_of buffer_for samples all_y write_list
  get_split_yuv frame channels full_buffer reuse = do
    raise_if (ltb channels 1 || ltb 3 channels) "invalid channel spec"
    desc ← get_vp_desc frame
    raise_if (not (eq_ℤ desc.fb_type lv_fb_yuv8) && not (eq_ℤ desc.fb_type lv_fb_yuv8b))
        "unsupported framebuffer type"
    let want_y = not (channels == 2)
    let want_uv = not (channels == 1)
    y_size ← y_size_of desc want_y full_buffer
    y0 ← buffer_for want_y reuse.y_data y_size
    let uv_size = div_ℤ y_size (if eq_ℤ desc.fb_type lv_fb_yuv8 then 4 else 2)
    u0 ← buffer_for want_uv reuse.u_data uv_size
    v0 ← buffer_for want_uv reuse.v_data uv_size
    groups ← access (
        samples frame desc want_y want_uv
          (to_u32 (if full_buffer then desc.buffer_width else desc.visible_width)))
    y1 ← write_part y0 (all_y groups)
    u1 ← write_part u0 (map (λ s. s.u) groups)
    v1 ← write_part v0 (map (λ s. s.v) groups)
    ok (record { y_data = y1; u_data = u1; v_data = v1 })

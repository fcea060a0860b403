-- ===== src/Rawimg/Image.antt =====
-- rawimg.c: an image over a buffer, and its methods that read and write single pixels. The buffer
-- is the memory of the `lbuf` that the image is bound to, and `base` is the image's offset in it.
pub mod Grid
pub mod Access
pub mod Write
pub mod Methods
use chdkptp_jet_tx1_jet_nano.Common.{
  ℕ, ◌+◌, ◌-◌, ◌*◌, ◌/◌, ◌%◌, ◌^◌, bit_and, Option, none, some, List, Bool, ◌&&◌, ◌||◌, ◌==◌, ltb,
  leb, if◌then◌else◌, u32, get_or, Memory, ◌>>=◌, not,
}
use chdkptp_jet_tx1_jet_nano.Common.Results.{Result, ok, err}
use chdkptp_jet_tx1_jet_nano.Rawimg.Format.{RawFormat, raw_endian_l, raw_endian_b}
use Prim.Native.String.{String}

-- `raw_image_t`; `base` stands for the pointer `data`.
pub record RawImage : Type 0 where
  pub fmt : RawFormat
  pub row_bytes : ℕ
  pub width : ℕ
  pub height : ℕ
  pub cfa_pattern : List ℕ
  pub active_top : ℕ
  pub active_left : ℕ
  pub active_bottom : ℕ
  pub active_right : ℕ
  pub black_level : ℕ
  pub base : ℕ

abbrev pub cfa_green : ℕ
cfa_green = 1

unfoldable pub cfa_color : RawImage → ℕ → ℕ → ℕ
cfa_color img x y = get_or img.cfa_pattern (bit_and x 1 + bit_and y 1 * 2) 0

-- `img->fmt->get_pixel(img->data, img->row_bytes, x, y)`.
abbrev pub image_get : RawImage → Memory → ℕ → ℕ → Option ℕ
image_get img m x y = img.fmt.get_pixel m img.base img.row_bytes x y

abbrev pub image_set : RawImage → Memory → ℕ → ℕ → ℕ → Option Memory
image_set img m x y v = img.fmt.set_pixel m img.base img.row_bytes x y v

-- The inner option is Lua's `nil` for a pixel out of bounds; the outer one an access outside the
-- buffer.
unfoldable pub rawimg_lua_get_pixel : RawImage → Memory → ℕ → ℕ → Option (Option ℕ)
rawimg_lua_get_pixel img m x y =
    if leb img.width x || leb img.height y
    then some none
    else do v ← image_get img m x y; some (some v)

unfoldable pub rawimg_lua_set_pixel : RawImage → Memory → ℕ → ℕ → ℕ → Option Memory
rawimg_lua_set_pixel img m x y val =
    if ltb x img.width || ltb y img.height then image_set img m x y val else some m

unfoldable pub rawimg_lua_get_endian : RawImage → Result String
rawimg_lua_get_endian img =
    if img.fmt.endian == raw_endian_l
    then ok "little"
    else if img.fmt.endian == raw_endian_b
    then ok "big"
    else err "invalid endian"

unfoldable pub rawimg_get_pixel_safe : RawImage → Memory → ℕ → ℕ → Option ℕ
rawimg_get_pixel_safe img m x y =
    if leb img.width x || leb img.height y then some 0 else image_get img m x y

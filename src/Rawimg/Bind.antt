-- ===== src/Rawimg/Bind.antt =====
-- rawimg.c: `rawimg.bind_lbuf` makes an image of a description and a buffer. The Lua table's numbers
-- are the `unsigned` values that they are converted to, and `endian` the index in `endian_strings`.
pub mod Laws
use chdkptp_jet_tx1_jet_nano.Common.{
  ℕ, ◌+◌, ◌*◌, ◌/◌, ◌%◌, ◌^◌, Option, none, some, List, [], ◌∷◌, Bool, not, ◌==◌, ltb, leb,
  if◌then◌else◌, u32, length, Memory,
}
use chdkptp_jet_tx1_jet_nano.Common.Results.{Result, ok, err, ◌>>=◌, ◌>>◌, raise_if, expect}
use chdkptp_jet_tx1_jet_nano.Rawimg.Format.{RawFormat, rawimg_find_format}
use chdkptp_jet_tx1_jet_nano.Rawimg.Image.{RawImage}

pub record ActiveArea : Type 0 where
  pub top : ℕ
  pub left : ℕ
  pub bottom : ℕ
  pub right : ℕ

-- The fields of `imgspec`, but for `data`; an optional one is `none` where it is missing.
pub record ImageSpec : Type 0 where
  pub width : ℕ
  pub height : ℕ
  pub bpp : ℕ
  pub endian : ℕ
  pub data_offset : Option ℕ
  pub black_level : Option ℕ
  pub cfa_pattern : Option (List ℕ)
  pub active_area : Option ActiveArea

abbrev pub or_default : Option ℕ → ℕ → ℕ
or_default none d = d
or_default (some n) d = n

unfoldable pub check_cfa : Option (List ℕ) → Result (List ℕ)
check_cfa none = ok (0 ∷ 0 ∷ 0 ∷ 0 ∷ [])
check_cfa (some cfa) = if length cfa == 4 then ok cfa else err "unknown cfa pattern"

-- The third test compares `active_left` with the width, as the source does.
unfoldable pub check_area : ImageSpec → Option ActiveArea → Result ActiveArea
check_area spec none = ok (record { top = 0; left = 0; bottom = spec.height; right = spec.width })
check_area spec (some area) = do
  raise_if (leb area.bottom area.top) "active top >= bottom"
  raise_if (leb area.right area.left) "active left >= right"
  raise_if (ltb spec.width area.left) "active right > width"
  raise_if (ltb spec.height area.bottom) "active bottom > height"
  ok area

unfoldable pub rawimg_lua_bind_lbuf : ImageSpec → Memory → Result RawImage
unfolding check_cfa check_area
rawimg_lua_bind_lbuf spec buf = do
  let offset = or_default spec.data_offset 0
  cfa ← check_cfa spec.cfa_pattern
  area ← check_area spec spec.active_area
  fmt ← expect (rawimg_find_format spec.bpp spec.endian) "unknown format"
  raise_if (not (spec.width % fmt.block_pixels == 0)) "width not a multiple of block size"
  let row_bytes = u32 (spec.width * fmt.bpp) / 8
  raise_if (ltb buf.size (u32 (offset + u32 (row_bytes * spec.height)))) "size larger than data"
  ok (record {
    fmt = fmt;
    row_bytes = row_bytes;
    width = spec.width;
    height = spec.height;
    cfa_pattern = cfa;
    active_top = area.top;
    active_left = area.left;
    active_bottom = area.bottom;
    active_right = area.right;
    black_level = or_default spec.black_level 0;
    base = offset;
  })

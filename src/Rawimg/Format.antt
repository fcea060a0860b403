-- ===== src/Rawimg/Format.antt =====
-- rawimg.c: the table of raw formats.
use chdkptp_jet_tx1_jet_nano.Common.{
  ℕ, ◌*◌, ◌/◌, Option, none, some, List, [], ◌∷◌, ◌&&◌, ◌||◌, ◌==◌, if◌then◌else◌, Memory,
}
use chdkptp_jet_tx1_jet_nano.Rawimg.Pixel.{
  raw_get_pixel_8l, raw_set_pixel_8l, raw_get_pixel_10l, raw_set_pixel_10l, raw_get_pixel_10b,
  raw_set_pixel_10b, raw_get_pixel_12l, raw_set_pixel_12l, raw_get_pixel_12b, raw_set_pixel_12b,
  raw_get_pixel_14l, raw_set_pixel_14l, raw_get_pixel_14b, raw_set_pixel_14b, raw_get_pixel_16l,
  raw_set_pixel_16l, raw_get_pixel_16b, raw_set_pixel_16b,
}

abbrev pub raw_endian_l : ℕ
raw_endian_l = 0

abbrev pub raw_endian_b : ℕ
raw_endian_b = 1

-- A pixel function takes the memory, the image's offset in it, `row_bytes`, `x` and `y`.
pub record RawFormat : Type 0 where
  pub bpp : ℕ
  pub endian : ℕ
  pub block_bytes : ℕ
  pub block_pixels : ℕ
  pub get_pixel : Memory → ℕ → ℕ → ℕ → ℕ → Option ℕ
  pub set_pixel : Memory → ℕ → ℕ → ℕ → ℕ → ℕ → Option Memory

-- `FMT_DEF_SINGLE`.
abbrev pub fmt_def_single :
    ℕ
    → ℕ
    → ℕ
    → (Memory → ℕ → ℕ → ℕ → ℕ → Option ℕ)
    → (Memory → ℕ → ℕ → ℕ → ℕ → ℕ → Option Memory)
    → RawFormat
fmt_def_single bpp endian block_bytes get set = record {
  bpp = bpp;
  endian = endian;
  block_bytes = block_bytes;
  block_pixels = block_bytes * 8 / bpp;
  get_pixel = get;
  set_pixel = set;
}

abbrev pub raw_8l : RawFormat
raw_8l = fmt_def_single 8 raw_endian_l 1 raw_get_pixel_8l raw_set_pixel_8l

abbrev pub raw_10l : RawFormat
raw_10l = fmt_def_single 10 raw_endian_l 10 raw_get_pixel_10l raw_set_pixel_10l

abbrev pub raw_10b : RawFormat
raw_10b = fmt_def_single 10 raw_endian_b 5 raw_get_pixel_10b raw_set_pixel_10b

abbrev pub raw_12l : RawFormat
raw_12l = fmt_def_single 12 raw_endian_l 6 raw_get_pixel_12l raw_set_pixel_12l

abbrev pub raw_12b : RawFormat
raw_12b = fmt_def_single 12 raw_endian_b 3 raw_get_pixel_12b raw_set_pixel_12b

abbrev pub raw_14l : RawFormat
raw_14l = fmt_def_single 14 raw_endian_l 14 raw_get_pixel_14l raw_set_pixel_14l

abbrev pub raw_14b : RawFormat
raw_14b = fmt_def_single 14 raw_endian_b 7 raw_get_pixel_14b raw_set_pixel_14b

abbrev pub raw_16l : RawFormat
raw_16l = fmt_def_single 16 raw_endian_l 2 raw_get_pixel_16l raw_set_pixel_16l

abbrev pub raw_16b : RawFormat
raw_16b = fmt_def_single 16 raw_endian_b 2 raw_get_pixel_16b raw_set_pixel_16b

abbrev pub raw_formats : List RawFormat
raw_formats =
    raw_8l ∷ raw_10l ∷ raw_10b ∷ raw_12l ∷ raw_12b ∷ raw_14l ∷ raw_14b ∷ raw_16l ∷ raw_16b ∷ []

-- The loop of `rawimg_find_format` over the rest of the table.
unfoldable pub find_from : List RawFormat → ℕ → ℕ → Option RawFormat
find_from [] bpp endian = none
find_from (fmt ∷ rest) bpp endian =
    if (fmt.bpp == bpp) && ((bpp == 8) || (fmt.endian == endian))
    then some fmt
    else find_from rest bpp endian

unfoldable pub rawimg_find_format : ℕ → ℕ → Option RawFormat
rawimg_find_format bpp endian = find_from raw_formats bpp endian

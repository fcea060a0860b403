-- ===== src/Liveimg/Palette.antt =====
-- liveimg.c: the palettes of the bitmap overlay.
pub mod Sizes
use chdkptp_jet_tx1_jet_nano.Common.{
  ℕ, zero, suc, ◌+◌, ◌*◌, ◌/◌, Option, none, some, List, [], ◌∷◌, ltb, ◌==◌, if◌then◌else◌, bit_and,
  ◌>>◌, Memory, get_elem?, get_or, ◌>>=◌,
}
use chdkptp_jet_tx1_jet_nano.Common.Int.{ℤ, pos, ◌+ℤ◌, signed8, to_u32}
use chdkptp_jet_tx1_jet_nano.Common.Results
use chdkptp_jet_tx1_jet_nano.Common.Results.{Result, fault, access}
use chdkptp_jet_tx1_jet_nano.Liveimg.Colour.{Rgba, yuv_to_rgba, clamp_uint8, clamp_int8}
use chdkptp_jet_tx1_jet_nano.Liveimg.Frame.{load_at, eq_ℤ, header, palette_type, palette_data_start}

-- Byte `k` of the entry `i` of the palette at `pal`: `a y u v` or `v u y a`.
unfoldable pub entry : Memory → ℤ → ℕ → ℕ → Option ℕ
unfolding load_at
entry m pal i k = load_at m (pal +ℤ pos (4 * i + k))

-- The sum of a component of two entries, as a byte or as a signed byte.
unfoldable pub sum_u8 : Memory → ℤ → ℕ → ℕ → ℕ → Option ℕ
unfolding entry
sum_u8 m pal i1 i2 k = do a ← entry m pal i1 k; b ← entry m pal i2 k; some (a + b)

unfoldable pub sum_i8 : Memory → ℤ → ℕ → ℕ → ℕ → Option ℤ
unfolding entry
sum_i8 m pal i1 i2 k = do a ← entry m pal i1 k; b ← entry m pal i2 k; some (signed8 a +ℤ signed8 b)

-- The nibbles of a pixel.
abbrev pub low_nibble : ℕ → ℕ
low_nibble pixel = bit_and pixel 0x0f

abbrev pub high_nibble : ℕ → ℕ
high_nibble pixel = bit_and pixel 0xf0 >> 4

unfoldable pub chroma : Memory → ℤ → ℕ → ℕ → ℕ → Option ℤ
unfolding sum_i8 clamp_int8
chroma m pal i1 i2 k = do sum ← sum_i8 m pal i1 i2 k; some (clamp_int8 sum)

unfoldable pub palette_type1_to_rgba : Memory → ℤ → ℕ → Option Rgba
unfolding sum_u8 chroma clamp_uint8
palette_type1_to_rgba m pal pixel =
    let i1 = low_nibble pixel in
    let i2 = high_nibble pixel in
    do
      a ← sum_u8 m pal i1 i2 0
      u ← if i1 == 0 then some (pos 0) else chroma m pal i1 i2 2
      v ← if i1 == 0 then some (pos 0) else chroma m pal i1 i2 3
      y ← sum_u8 m pal i1 i2 1
      some (yuv_to_rgba (clamp_uint8 y) u v (a >> 1))

abbrev pub alpha2_lookup : List ℕ
alpha2_lookup = 128 ∷ 171 ∷ 214 ∷ 255 ∷ []

-- `alpha2_lookup[a&3]`.
unfoldable pub alpha2 : ℕ → ℕ
alpha2 a = get_or alpha2_lookup (bit_and a 3) 0

unfoldable pub palette_type2_to_rgba : Memory → ℤ → ℕ → Option Rgba
unfolding sum_u8 chroma clamp_uint8 alpha2
palette_type2_to_rgba m pal pixel =
    let i1 = low_nibble pixel in
    let i2 = high_nibble pixel in
    do
      a ← sum_u8 m pal i1 i2 0
      y ← sum_u8 m pal i1 i2 1
      u ← chroma m pal i1 i2 2
      v ← chroma m pal i1 i2 3
      some (yuv_to_rgba (clamp_uint8 y) u v (alpha2 (a >> 1)))

abbrev pub transparent : Rgba
transparent = record { r = 0; g = 0; b = 0; a = 0 }

unfoldable pub palette_vuya_entry : Memory → ℤ → ℕ → ℕ → Option Rgba
unfolding entry alpha2
palette_vuya_entry m pal pixel shift = do
  a ← entry m pal pixel 3
  y ← entry m pal pixel 2
  v ← entry m pal pixel 0
  u ← entry m pal pixel 1
  some (yuv_to_rgba y (signed8 u) (signed8 v) (alpha2 (a >> shift)))

unfoldable pub palette_ayuv_to_rgba : Memory → ℤ → ℕ → ℕ → Option Rgba
unfolding palette_vuya_entry
palette_ayuv_to_rgba m pal pixel shift =
    if pixel == 0 then some transparent else palette_vuya_entry m pal pixel shift

unfoldable pub palette_type3_to_rgba : Memory → ℤ → ℕ → Option Rgba
unfolding palette_ayuv_to_rgba
palette_type3_to_rgba m pal pixel = palette_ayuv_to_rgba m pal pixel 0

unfoldable pub palette_type4_pair : Memory → ℤ → ℕ → ℕ → Option Rgba
unfolding sum_u8 chroma clamp_uint8 alpha2
palette_type4_pair m pal i1 i2 = do
  a ← sum_u8 m pal i1 i2 3
  y ← sum_u8 m pal i1 i2 2
  u ← chroma m pal i1 i2 1
  v ← chroma m pal i1 i2 0
  some (yuv_to_rgba (clamp_uint8 y) u v (alpha2 (a >> 1)))

unfoldable pub palette_type4_to_rgba : Memory → ℤ → ℕ → Option Rgba
unfolding palette_type4_pair
palette_type4_to_rgba m pal pixel =
    if pixel == 0
    then some transparent
    else palette_type4_pair m pal (low_nibble pixel) (high_nibble pixel)

unfoldable pub palette_type5_to_rgba : Memory → ℤ → ℕ → Option Rgba
unfolding palette_ayuv_to_rgba
palette_type5_to_rgba m pal pixel = palette_ayuv_to_rgba m pal pixel 4

-- `palette_convert_t`; a null function is `none`.
pub record PaletteConvert : Type 0 where
  pub to_rgba : Option (Memory → ℤ → ℕ → Option Rgba)
  pub num_entries : ℕ

unfoldable pub palette_funcs : List PaletteConvert
palette_funcs =
    record { to_rgba = none; num_entries = 0 }
    ∷ record { to_rgba = some palette_type1_to_rgba; num_entries = 16 }
    ∷ record { to_rgba = some palette_type2_to_rgba; num_entries = 16 }
    ∷ record { to_rgba = some palette_type3_to_rgba; num_entries = 256 }
    ∷ record { to_rgba = some palette_type4_to_rgba; num_entries = 16 }
    ∷ record { to_rgba = some palette_type5_to_rgba; num_entries = 256 }
    ∷ []

unfoldable pub get_palette_convert : ℕ → Option PaletteConvert
unfolding palette_funcs
get_palette_convert type = get_elem? palette_funcs type

abbrev pub entries_size : Option PaletteConvert → ℕ
entries_size none = 0
entries_size (some convert) = convert.num_entries * 4

unfoldable pub get_palette_size : ℕ → ℕ
unfolding get_palette_convert
get_palette_size type = entries_size (get_palette_convert type)

-- From an a540 in playback mode.
abbrev pub palette_type1_default : List ℕ
palette_type1_default =
    0x00 ∷ 0x00 ∷ 0x00 ∷ 0x00 ∷ 0xff ∷ 0xe0 ∷ 0x00 ∷ 0x00 ∷ 0xff ∷ 0x60 ∷ 0xee ∷ 0x62 ∷ 0xff ∷ 0xb9
    ∷ 0x00 ∷ 0x00 ∷ 0x7f ∷ 0x00 ∷ 0x00 ∷ 0x00 ∷ 0xff ∷ 0x7e ∷ 0xa1 ∷ 0xb3 ∷ 0xff ∷ 0xcc ∷ 0xb8
    ∷ 0x5e ∷ 0xff ∷ 0x5f ∷ 0x00 ∷ 0x00 ∷ 0xff ∷ 0x94 ∷ 0xc5 ∷ 0x5d ∷ 0xff ∷ 0x8a ∷ 0x50 ∷ 0xb0
    ∷ 0xff ∷ 0x4b ∷ 0x3d ∷ 0xd4 ∷ 0x7f ∷ 0x28 ∷ 0x00 ∷ 0x00 ∷ 0x7f ∷ 0x00 ∷ 0x7b ∷ 0xe2 ∷ 0xff
    ∷ 0x30 ∷ 0x00 ∷ 0x00 ∷ 0xff ∷ 0x69 ∷ 0x00 ∷ 0x00 ∷ 0xff ∷ 0x00 ∷ 0x00 ∷ 0x00 ∷ []

abbrev pub default_palette : Memory
default_palette = record { size = 64; cell = λ i. get_or palette_type1_default i 0 }

-- `for(i=0;i<256;i++) fn(pal,i,&pal_rgba[i])`, at `i` with `n` rounds left.
unfoldable pub convert_entries : (ℕ → Option Rgba) → ℕ → ℕ → Option (List Rgba)
convert_entries fn zero i = some []
convert_entries fn (suc n) i = do c ← fn i; rest ← convert_entries fn n (i + 1); some (c ∷ rest)

-- The call through a null pointer is a fault.
abbrev pub convert_with : Option (Memory → ℤ → ℕ → Option Rgba) → Memory → ℤ → Result (List Rgba)
convert_with none m pal = fault
convert_with (some fn) m pal = access (convert_entries (fn m pal) 256 0)

abbrev pub convert_from : Option PaletteConvert → ℤ → Memory → Result (List Rgba)
convert_from none start frame = convert_with (some palette_type1_to_rgba) default_palette (pos 0)
convert_from (some convert) start frame =
    if eq_ℤ start (pos 0)
    then convert_with (some palette_type1_to_rgba) default_palette (pos 0)
    else convert_with convert.to_rgba frame start

unfoldable pub convert_palette : Memory → Result (List Rgba)
unfolding header get_palette_convert convert_entries
convert_palette frame = Results.◌>>=◌ (header frame palette_type) λ type.
    Results.◌>>=◌ (header frame palette_data_start)
      λ start. convert_from (get_palette_convert (to_u32 type)) start frame

-- ===== src/Rawimg/Laws/Formats.antt =====
-- Every format of the table keeps the laws of its layout: the interface that the image code uses.
use mathlib.Core.Path.{subst}
use chdkptp_jet_tx1_jet_nano.Common.{
  ap, List, [], ◌∷◌, Bool-cases, some_value, inl, inr, ◌==◌, ◌&&◌, ◌||◌, ℕ, ◌%◌, ◌≡◌, some, false,
  arith, refl, bit_and_one, bit_and_three, bit_and_seven, ◌+◌, ◌*◌, true, Memory, u32, ◌/◌,
}
use chdkptp_jet_tx1_jet_nano.Rawimg.Format.{
  RawFormat, raw_10l, raw_10b, raw_12l, raw_12b, raw_14l, raw_14b, raw_formats, find_from,
  rawimg_find_format,
}
use chdkptp_jet_tx1_jet_nano.Rawimg.Pixel.{
  raw_get_pixel_10l, raw_set_pixel_10l, get_case_10l, set_case_10l, raw_get_pixel_10b,
  raw_set_pixel_10b, get_case_10b, set_case_10b, raw_get_pixel_12l, raw_set_pixel_12l, get_case_12l,
  set_case_12l, raw_get_pixel_12b, raw_set_pixel_12b, get_case_12b, set_case_12b, raw_get_pixel_14l,
  raw_set_pixel_14l, get_case_14l, set_case_14l, raw_get_pixel_14b, raw_set_pixel_14b, get_case_14b,
  set_case_14b,
}
use chdkptp_jet_tx1_jet_nano.Rawimg.Laws.Interface.{
  PixelLaws, IsGrid, layout_of, packed-PixelLaws, loses_writes,
}
use chdkptp_jet_tx1_jet_nano.Rawimg.Laws.Whole.{
  raw_8l-PixelLaws, raw_16l-PixelLaws, raw_16b-PixelLaws,
}
use chdkptp_jet_tx1_jet_nano.Rawimg.Laws.TenLittle.{ten_l-IsPacked, ten_l-HasDigits}
use chdkptp_jet_tx1_jet_nano.Rawimg.Laws.TenBig.{ten_b-IsPacked, ten_b-HasDigits}
use chdkptp_jet_tx1_jet_nano.Rawimg.Laws.TwelveLittle.{twelve_l-IsPacked, twelve_l-HasDigits}
use chdkptp_jet_tx1_jet_nano.Rawimg.Laws.TwelveBig.{twelve_b-IsPacked, twelve_b-HasDigits}
use chdkptp_jet_tx1_jet_nano.Rawimg.Laws.FourteenLittle.{fourteen_l-IsPacked, fourteen_l-HasDigits}
use chdkptp_jet_tx1_jet_nano.Rawimg.Laws.FourteenBig.{fourteen_b-IsPacked, fourteen_b-HasDigits}

raw_10l-IsGrid : IsGrid (layout_of raw_10l)
raw_10l-IsGrid = record {
  in_block = λ x. omega arith;
  in_row = λ x w h e. omega arith;
  place = λ x x' e e'. omega arith;
  row_bytes = λ w e. omega arith;
  depth = omega arith;
  nonempty = omega arith;
  in_bytes = λ i h. ground arith;
  next_row = λ x w e. omega arith;
}

pub raw_10l-PixelLaws : PixelLaws raw_10l
unfolding raw_get_pixel_10l raw_set_pixel_10l
raw_10l-PixelLaws =
    packed-PixelLaws raw_10l get_case_10l set_case_10l ten_l-IsPacked ten_l-HasDigits raw_10l-IsGrid
      (λ m p row_bytes x y. rw (bit_and_seven x)) (λ m p row_bytes x y v kept. rw (bit_and_seven x))
      (λ m p row_bytes x y v lost. absurd (cc))

raw_10b-IsGrid : IsGrid (layout_of raw_10b)
raw_10b-IsGrid = record {
  in_block = λ x. omega arith;
  in_row = λ x w h e. omega arith;
  place = λ x x' e e'. omega arith;
  row_bytes = λ w e. omega arith;
  depth = omega arith;
  nonempty = omega arith;
  in_bytes = λ i h. ground arith;
  next_row = λ x w e. omega arith;
}

pub raw_10b-PixelLaws : PixelLaws raw_10b
unfolding raw_get_pixel_10b raw_set_pixel_10b
raw_10b-PixelLaws =
    packed-PixelLaws raw_10b get_case_10b set_case_10b ten_b-IsPacked ten_b-HasDigits raw_10b-IsGrid
      (λ m p row_bytes x y. rw (bit_and_three x)) (λ m p row_bytes x y v kept. rw (bit_and_three x))
      (λ m p row_bytes x y v lost. absurd (cc))

raw_12l-IsGrid : IsGrid (layout_of raw_12l)
raw_12l-IsGrid = record {
  in_block = λ x. omega arith;
  in_row = λ x w h e. omega arith;
  place = λ x x' e e'. omega arith;
  row_bytes = λ w e. omega arith;
  depth = omega arith;
  nonempty = omega arith;
  in_bytes = λ i h. ground arith;
  next_row = λ x w e. omega arith;
}

pub raw_12l-PixelLaws : PixelLaws raw_12l
unfolding raw_get_pixel_12l raw_set_pixel_12l
raw_12l-PixelLaws =
    packed-PixelLaws raw_12l get_case_12l set_case_12l twelve_l-IsPacked twelve_l-HasDigits
      raw_12l-IsGrid (λ m p row_bytes x y. rw (bit_and_three x))
      (λ m p row_bytes x y v kept. rw (bit_and_three x)) (λ m p row_bytes x y v lost. absurd (cc))

raw_12b-IsGrid : IsGrid (layout_of raw_12b)
raw_12b-IsGrid = record {
  in_block = λ x. omega arith;
  in_row = λ x w h e. omega arith;
  place = λ x x' e e'. omega arith;
  row_bytes = λ w e. omega arith;
  depth = omega arith;
  nonempty = omega arith;
  in_bytes = λ i h. ground arith;
  next_row = λ x w e. omega arith;
}

pub raw_12b-PixelLaws : PixelLaws raw_12b
unfolding raw_get_pixel_12b raw_set_pixel_12b
raw_12b-PixelLaws =
    packed-PixelLaws raw_12b get_case_12b set_case_12b twelve_b-IsPacked twelve_b-HasDigits
      raw_12b-IsGrid (λ m p row_bytes x y. rw (bit_and_one x))
      (λ m p row_bytes x y v kept. rw (bit_and_one x)) (λ m p row_bytes x y v lost. absurd (cc))

raw_14l-IsGrid : IsGrid (layout_of raw_14l)
raw_14l-IsGrid = record {
  in_block = λ x. omega arith;
  in_row = λ x w h e. omega arith;
  place = λ x x' e e'. omega arith;
  row_bytes = λ w e. omega arith;
  depth = omega arith;
  nonempty = omega arith;
  in_bytes = λ i h. ground arith;
  next_row = λ x w e. omega arith;
}

pub raw_14l-PixelLaws : PixelLaws raw_14l
unfolding raw_get_pixel_14l raw_set_pixel_14l
raw_14l-PixelLaws =
    packed-PixelLaws raw_14l get_case_14l set_case_14l fourteen_l-IsPacked fourteen_l-HasDigits
      raw_14l-IsGrid (λ m p row_bytes x y. refl) (λ m p row_bytes x y v kept. refl)
      (λ m p row_bytes x y v lost. absurd (cc))

-- Where the setter has a case, its `x % 8` is the place in the block.
same_place : (x : ℕ) → loses_writes raw_14b x ≡ false → x % 8 ≡ x % 4
same_place x kept = ground arith

-- Where it has none, it writes nothing.
dropped :
    (m : Memory) (addr x v : ℕ)
    → loses_writes raw_14b x ≡ true
    → set_case_14b m addr (x % 8) v ≡ some m
unfolding set_case_14b
dropped m addr x v lost = ground arith

raw_14b-IsGrid : IsGrid (layout_of raw_14b)
raw_14b-IsGrid = record {
  in_block = λ x. omega arith;
  in_row = λ x w h e. omega arith;
  place = λ x x' e e'. omega arith;
  row_bytes = λ w e. omega arith;
  depth = omega arith;
  nonempty = omega arith;
  in_bytes = λ i h. ground arith;
  next_row = λ x w e. omega arith;
}

pub raw_14b-PixelLaws : PixelLaws raw_14b
unfolding raw_get_pixel_14b raw_set_pixel_14b
raw_14b-PixelLaws =
    packed-PixelLaws raw_14b get_case_14b set_case_14b fourteen_b-IsPacked fourteen_b-HasDigits
      raw_14b-IsGrid (λ m p row_bytes x y. refl)
      (λ m p row_bytes x y v kept. rw (same_place x kept))
      (λ m p row_bytes x y v lost. dropped m (p + u32 (y * row_bytes) + u32 (x / 4 * 7)) x v lost)

-- A statement about every format of a list holds of what the search finds in it.
abbrev EachFormat : (RawFormat → Type 0) → List RawFormat → Type 0
EachFormat P [] = Unit
EachFormat P (fmt ∷ rest) = P fmt × EachFormat P rest

find_from-EachFormat :
    (P : RawFormat → Type 0) (formats : List RawFormat) (bpp endian : ℕ) {fmt : RawFormat}
    → EachFormat P formats
    → find_from formats bpp endian ≡ some fmt
    → P fmt
unfolding find_from
find_from-EachFormat P [] bpp endian all e = absurd (cc)
find_from-EachFormat P (f ∷ rest) bpp endian all e =
    elim (Bool-cases ((f.bpp == bpp) && ((bpp == 8) || (f.endian == endian)))) [
      | inl found ↦ subst P (some_value (rw found at e)) all.0
      | inr other ↦ find_from-EachFormat P rest bpp endian all.1 (rw other at e)
    ]

-- What `rawimg_find_format` returns is a row of the table, so it keeps the laws.
pub rawimg_find_format-PixelLaws :
    (bpp endian : ℕ) {fmt : RawFormat} → rawimg_find_format bpp endian ≡ some fmt → PixelLaws fmt
unfolding rawimg_find_format
rawimg_find_format-PixelLaws bpp endian e =
    find_from-EachFormat PixelLaws raw_formats bpp endian
      (assumption (
        raw_8l-PixelLaws, raw_10l-PixelLaws, raw_10b-PixelLaws, raw_12l-PixelLaws,
        raw_12b-PixelLaws, raw_14l-PixelLaws, raw_14b-PixelLaws, raw_16l-PixelLaws,
        raw_16b-PixelLaws, tt,
      ))
      e

find_from-bpp :
    (formats : List RawFormat) (bpp endian : ℕ) {fmt : RawFormat}
    → find_from formats bpp endian ≡ some fmt
    → fmt.bpp ≡ bpp
unfolding find_from
find_from-bpp [] bpp endian e = absurd (cc)
find_from-bpp (f ∷ rest) bpp endian e =
    elim (Bool-cases ((f.bpp == bpp) && ((bpp == 8) || (f.endian == endian)))) [
      | inl found ↦ ground (arith, ap (λ (g : RawFormat). g.bpp) (some_value (rw found at e)))
      | inr other ↦ find_from-bpp rest bpp endian (rw other at e)
    ]

-- It has the number of bits that was asked for.
pub rawimg_find_format-bpp :
    (bpp endian : ℕ) {fmt : RawFormat} → rawimg_find_format bpp endian ≡ some fmt → fmt.bpp ≡ bpp
unfolding rawimg_find_format
rawimg_find_format-bpp bpp endian e = find_from-bpp raw_formats bpp endian e

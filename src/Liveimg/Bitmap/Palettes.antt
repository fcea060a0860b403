-- ===== src/Liveimg/Bitmap/Palettes.antt =====
-- The palette of an overlay that has passed the test of its size.
use chdkptp_jet_tx1_jet_nano.Common.{
  ℕ, zero, suc, ◌+◌, ◌^◌, ◌≤◌, ◌<◌, ◌≡◌, ◌⊎◌, inl, inr, refl, ap, ap₂, sym, ◌∙◌, arith, Option,
  some, Memory, List, length, ltb, u32, if◌then◌else◌, Bool, true, false,
}
use chdkptp_jet_tx1_jet_nano.Common.Int.{ℤ, pos, to_u32}
use chdkptp_jet_tx1_jet_nano.Common.Results.{Result, ok, ◌>>=◌, raise_if, access}
use chdkptp_jet_tx1_jet_nano.Liveimg.Colour.{Rgba}
use chdkptp_jet_tx1_jet_nano.Liveimg.Frame.{header, palette_type, palette_data_start, eq_ℤ}
use chdkptp_jet_tx1_jet_nano.Liveimg.Frame.Checks.{raise_if-ok}
use chdkptp_jet_tx1_jet_nano.Liveimg.Palette.{
  convert_with, convert_from, convert_palette, get_palette_convert, get_palette_size,
  default_palette, palette_type1_to_rgba, palette_type2_to_rgba, palette_type4_to_rgba,
  palette_type3_to_rgba, palette_type5_to_rgba,
}
use chdkptp_jet_tx1_jet_nano.Liveimg.Palette.Sizes.{
  Defined, convert_entries-total, type1-Defined, type2-Defined, type4-Defined, vuya-Defined,
}
use chdkptp_jet_tx1_jet_nano.Liveimg.Bitmap.{check_palette}

-- All 256 entries.
abbrev Full : Result (List Rgba) → Type 0
Full o = (pal : List Rgba) × (o ≡ ok pal) × (length pal ≡ 256)

with-Full :
    (fn : Memory → ℤ → ℕ → Option Rgba) (m : Memory) (pal : ℤ)
    → ((j : ℕ) → j < 256 → Defined (fn m pal j))
    → Full (convert_with (some fn) m pal)
with-Full fn m pal all =
    let (entries, e, len) = convert_entries-total (fn m pal) 256 0 (λ j h. all j h) in
    (entries, ap access e, len)

default-Full : Full (convert_with (some palette_type1_to_rgba) default_palette (pos 0))
default-Full =
    with-Full palette_type1_to_rgba default_palette (pos 0)
      (λ j h. type1-Defined default_palette 0 (omega arith) j h)

if-Full : (c : Bool) (x y : Result (List Rgba)) → Full x → Full y → Full (if c then x else y)
if-Full true x y h k = h
if-Full false x y h k = k

is_zero : (start : ℕ) → start ≡ 0 → eq_ℤ (pos start) (pos 0) ≡ true
unfolding eq_ℤ
is_zero start h = ground arith

module _ (frame : Memory) (start : ℕ) where
  type3-Defined :
      (j : ℕ)
      → j < 256
      → start + 1024 ≤ frame.size
      → Defined (palette_type3_to_rgba frame (pos start) j)
  unfolding palette_type3_to_rgba
  type3-Defined j h room = vuya-Defined frame start j 0 room h

  type5-Defined :
      (j : ℕ)
      → j < 256
      → start + 1024 ≤ frame.size
      → Defined (palette_type5_to_rgba frame (pos start) j)
  unfolding palette_type5_to_rgba
  type5-Defined j h room = vuya-Defined frame start j 4 room h

  from-Full :
      (type : ℕ)
      → (start ≡ 0) ⊎ (0 < type)
      → get_palette_size type + start ≤ frame.size
      → Full (convert_from (get_palette_convert type) (pos start) frame)
  unfolding get_palette_size get_palette_convert
  from-Full zero (inl h) room = rw (is_zero start h) default-Full
  from-Full zero (inr h) room = absurd (omega arith)
  from-Full (suc zero) some_type room = if-Full (eq_ℤ (pos start) (pos 0)) _ _ default-Full (
      with-Full palette_type1_to_rgba frame (pos start)
        (λ j h. type1-Defined frame start (omega arith) j h))
  from-Full (suc (suc zero)) some_type room = if-Full (eq_ℤ (pos start) (pos 0)) _ _ default-Full (
      with-Full palette_type2_to_rgba frame (pos start)
        (λ j h. type2-Defined frame start (omega arith) j h))
  from-Full (suc (suc (suc zero))) some_type room =
      if-Full (eq_ℤ (pos start) (pos 0)) _ _ default-Full
        (with-Full palette_type3_to_rgba frame (pos start) (λ j h. type3-Defined j h (omega arith)))
  from-Full (suc (suc (suc (suc zero)))) some_type room =
      if-Full (eq_ℤ (pos start) (pos 0)) _ _ default-Full (
        with-Full palette_type4_to_rgba frame (pos start)
          (λ j h. type4-Defined frame start (omega arith) j h))
  from-Full (suc (suc (suc (suc (suc zero))))) some_type room =
      if-Full (eq_ℤ (pos start) (pos 0)) _ _ default-Full
        (with-Full palette_type5_to_rgba frame (pos start) (λ j h. type5-Defined j h (omega arith)))
  from-Full (suc (suc (suc (suc (suc (suc type)))))) some_type room = default-Full

size-le : (type : ℕ) → get_palette_size type ≤ 1024
unfolding get_palette_size get_palette_convert
size-le zero = omega arith
size-le (suc zero) = omega arith
size-le (suc (suc zero)) = omega arith
size-le (suc (suc (suc zero))) = omega arith
size-le (suc (suc (suc (suc zero)))) = omega arith
size-le (suc (suc (suc (suc (suc zero))))) = omega arith
size-le (suc (suc (suc (suc (suc (suc type)))))) = omega arith

check_step :
    (frame : Memory)
    → check_palette frame ≡ (
        header frame palette_type >>= λ type. header frame palette_data_start >>= λ start.
        raise_if
          (ltb frame.size (u32 (get_palette_size (to_u32 type) + to_u32 start)))
          "data < palette size")
unfolding check_palette
check_step frame = refl

convert_step :
    (frame : Memory)
    → convert_palette frame ≡ (
        header frame palette_type >>= λ type. header frame palette_data_start >>= λ start.
        convert_from (get_palette_convert (to_u32 type)) start frame)
unfolding convert_palette
convert_step frame = refl

palette_test :
    (frame : Memory) (type start : ℕ) (passed : Unit {0})
    → header frame palette_type ≡ ok (pos type)
    → header frame palette_data_start ≡ ok (pos start)
    → type < 2 ^ 31
    → start < 2 ^ 31
    → check_palette frame ≡ ok passed
    → get_palette_size type + start ≤ frame.size
palette_test frame type start passed ht hs h k e =
    let same : to_u32 (pos type) ≡ type = omega arith in
    let test = raise_if-ok _ _ passed (
      ap₂
        (λ t s. t >>= λ type. s >>= λ start.
          raise_if (ltb frame.size (u32 (get_palette_size (to_u32 type) + to_u32 start)))
            "data < palette size")
        (sym ht) (sym hs)
      ∙ sym (check_step frame)
      ∙ e) in
    let test' : ltb frame.size (u32 (get_palette_size type + to_u32 (pos start))) ≡ false =
      ap (λ t. ltb frame.size (u32 (get_palette_size t + to_u32 (pos start)))) (sym same) ∙ test in
    ground (arith, size-le type)

-- If the palette passes the test of its size, the type and the offset of the header are not negative, and a type
-- of 0 goes with an offset of 0, then convert_palette reads inside the frame and gives 256 entries.
pub convert_palette-Full :
    (frame : Memory) (type start : ℕ) (passed : Unit {0})
    → header frame palette_type ≡ ok (pos type)
    → header frame palette_data_start ≡ ok (pos start)
    → type < 2 ^ 31
    → start < 2 ^ 31
    → (start ≡ 0) ⊎ (0 < type)
    → check_palette frame ≡ ok passed
    → (pal : List Rgba) × (convert_palette frame ≡ ok pal) × (length pal ≡ 256)
convert_palette-Full frame type start passed ht hs h k typed e =
    let same : to_u32 (pos type) ≡ type = omega arith in
    let (pal, e', len) =
      from-Full frame start type typed (palette_test frame type start passed ht hs h k e) in
    (
      pal,
      convert_step frame
          ∙ ap₂
              (λ t s. t >>= λ type.
                s >>= λ start. convert_from (get_palette_convert (to_u32 type)) start frame)
              ht hs
          ∙ ap (λ t. convert_from (get_palette_convert t) (pos start) frame) same
          ∙ e',
      len,
    )

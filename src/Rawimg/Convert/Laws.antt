-- ===== src/Rawimg/Convert/Laws.antt =====
-- The copy that `convert` makes, pixel by pixel.
use native.Mathlib.Numerals.{add-one}
use mathlib.Core.Path.{subst}
use native.Mathlib.Decide.{ℕ_discrete}
use chdkptp_jet_tx1_jet_nano.Common.{
  ℕ, zero, suc, ◌+◌, ◌^◌, ◌<◌, ◌≡◌, ◌⊎◌, inl, inr, refl, ◌∙◌, ap₂, ◌≢◌, some, false, not, ◌&&◌,
  ◌==◌, if◌then◌else◌, arith, Memory, IsBytes,
}
use chdkptp_jet_tx1_jet_nano.Rawimg.Laws.Interface.{loses_writes}
use chdkptp_jet_tx1_jet_nano.Rawimg.Image.{RawImage, image_set}
use chdkptp_jet_tx1_jet_nano.Rawimg.Image.Access.{IsImage, pixel_at, image_get_lem}
use chdkptp_jet_tx1_jet_nano.Rawimg.Image.Write.{
  WritesPixel, image_set-WritesPixel, IsImage-same_size,
}
use chdkptp_jet_tx1_jet_nano.Rawimg.Convert.{
  Shift, shift_value, convert_pixel, convert_row, convert_rows,
}

-- Pixel (x', y') comes before (x, y) in the order of the loops.
abbrev pub Before : ℕ → ℕ → ℕ → ℕ → Type 0
Before x y x' y' = (y' < y) ⊎ ((y' ≡ y) × (x' < x))

module _ (img : RawImage) (m : Memory) (newimg : RawImage) (s : Shift) (iv : IsImage img m)
    (b : IsBytes m) (same_width : newimg.width ≡ img.width)
    (same_height : newimg.height ≡ img.height) (keeps : (x : ℕ) → loses_writes newimg.fmt x ≡ false)
    (fits : (x y : ℕ)
      → x < img.width
      → y < img.height
      → shift_value s (pixel_at img m x y) < 2 ^ newimg.fmt.bpp) where
  -- The copy up to pixel (x, y), in memory `out`.
  pub record IsCopied (x y : ℕ) (out : Memory) : Type 0 where
    pub valid : IsImage newimg out
    pub bytes : IsBytes out
    pub copied :
        (x' y' : ℕ)
        → x' < img.width
        → y' < img.height
        → Before x y x' y'
        → pixel_at newimg out x' y' ≡ shift_value s (pixel_at img m x' y')

  -- The new pixel is the converted one, and the pixels before it stay.
  chosen :
      (x y : ℕ) (out : Memory)
      → IsCopied x y out
      → (x' y' : ℕ) → x' < img.width
      → y' < img.height
      → Before (suc x) y x' y'
      → (if ((x == x') && (y == y')) && not (loses_writes newimg.fmt x)
          then shift_value s (pixel_at img m x y)
          else pixel_at newimg out x' y')
        ≡ shift_value s (pixel_at img m x' y')
  chosen x y out c x' y' hx' hy' before = elim (ℕ_discrete x x') [
    | yes e ↦ elim (ℕ_discrete y y') [
      | yes e' ↦ ground (arith, keeps x, ap₂ (λ i j. shift_value s (pixel_at img m i j)) e e')
      | no ne ↦ ground (arith, c.copied x' y' hx' hy' (earlier (inr ne)))
    ]
    | no ne ↦ ground (arith, c.copied x' y' hx' hy' (earlier (inl ne)))
  ]
    where
      earlier : (x ≢ x') ⊎ (y ≢ y') → Before x y x' y'
      earlier ne = omega arith

  pub convert_pixel-IsCopied :
      (x y : ℕ) (out : Memory)
      → x < img.width
      → y < img.height
      → IsCopied x y out
      → (out' : Memory) × (convert_pixel img m newimg s y x out ≡ some out')
        × IsCopied (suc x) y out'
  convert_pixel-IsCopied x y out hx hy c =
      let v = shift_value s (pixel_at img m x y) in
      let w : WritesPixel newimg out x y v (image_set newimg out x y v) =
        image_set-WritesPixel newimg out c.valid x y v (rw same_width hx) (rw same_height hy)
          c.bytes (fits x y hx hy) in
      (
        w.out,
        unfold convert_pixel in rw (image_get_lem img m iv b x y hx hy) w.returns,
        record {
          valid = IsImage-same_size newimg out w.out w.same_size c.valid;
          bytes = w.bytes;
          copied = λ x' y' hx' hy' before.
              w.pixel x' y' (rw same_width hx') (rw same_height hy')
              ∙ chosen x y out c x' y' hx' hy' before;
        },
      )

  convert_row-IsCopied :
      (n x y : ℕ) (out : Memory)
      → x + n ≡ img.width
      → y < img.height
      → IsCopied x y out
      → (out' : Memory) × (convert_row img m newimg s y n x out ≡ some out')
        × IsCopied img.width y out'
  unfolding convert_row
  convert_row-IsCopied zero x y out e hy c =
      (out, refl, subst (λ k. IsCopied k y out) (omega arith) c)
  convert_row-IsCopied (suc n) x y out e hy c =
      let (mid, returns, c') = convert_pixel-IsCopied x y out (omega arith) hy c in
      let (out', rest, done) = convert_row-IsCopied n (suc x) y mid (omega arith) hy c' in
      (out', rw (returns, add-one) rest, done)

  -- A whole row done is the next row begun.
  next_row : (y : ℕ) (out : Memory) → IsCopied img.width y out → IsCopied 0 (suc y) out
  next_row y out c = record {
    valid = c.valid;
    bytes = c.bytes;
    copied = λ x' y' hx' hy' before. c.copied x' y' hx' hy' (omega arith);
  }

  -- The loops copy every pixel: the pixel of the new image is the old one's, shifted.
  pub convert_rows-IsCopied :
      (n y : ℕ) (out : Memory)
      → y + n ≡ img.height
      → IsCopied 0 y out
      → (out' : Memory) × (convert_rows img m newimg s n y out ≡ some out')
        × IsCopied 0 img.height out'
  unfolding convert_rows
  convert_rows-IsCopied zero y out e c = (out, refl, subst (λ k. IsCopied 0 k out) (omega arith) c)
  convert_rows-IsCopied (suc n) y out e c =
      let (mid, returns, c') =
        convert_row-IsCopied img.width 0 y out (omega arith) (omega arith) c in
      let (out', rest, done) =
        convert_rows-IsCopied n (suc y) mid (omega arith) (next_row y mid c') in
      (out', rw (returns, add-one) rest, done)

-- ===== src/Liveimg/Palette/Sizes.antt =====
-- The palette test covers what the conversion of a palette reads.
use chdkptp_jet_tx1_jet_nano.Common.{
  ℕ, zero, suc, ◌+◌, ◌*◌, ◌≤◌, ◌<◌, ◌≡◌, refl, ap, ◌∙◌, arith, Option, some, Memory, List, [], ◌∷◌,
  length, load_lem, bit_and_fifteen, Bool, true, false, ◌>>=◌, if◌then◌else◌, ◌==◌,
}
use chdkptp_jet_tx1_jet_nano.Common.Masks.{mask_f0}
use chdkptp_jet_tx1_jet_nano.Common.Int.{pos, pos-add}
use chdkptp_jet_tx1_jet_nano.Liveimg.Colour.{Rgba}
use chdkptp_jet_tx1_jet_nano.Liveimg.Frame.{load_at}
use chdkptp_jet_tx1_jet_nano.Liveimg.Palette.{
  convert_entries, entry, sum_u8, chroma, low_nibble, high_nibble, palette_type1_to_rgba,
  palette_type2_to_rgba, palette_vuya_entry, palette_ayuv_to_rgba, palette_type4_pair,
  palette_type4_to_rgba,
}

-- There is a value.
abbrev pub Defined {ℓ} : {A : Type ℓ} → Option A → Type ℓ
Defined {A} o = (a : A) × (o ≡ some a)

bind-Defined :
    {A B : Type 0} (o : Option A) (k : A → Option B)
    → Defined o
    → ((a : A) → Defined (k a))
    → Defined (o >>= k)
bind-Defined o k (a, e) all = let (b, e') = all a in (b, ap (λ o. o >>= k) e ∙ e')

if-Defined :
    {A : Type 0} (c : Bool) (x y : Option A) → Defined x → Defined y → Defined (if c then x else y)
if-Defined true x y h k = h
if-Defined false x y h k = k

-- A conversion that is defined at every pixel gives all entries.
pub convert_entries-total :
    (fn : ℕ → Option Rgba) (n i : ℕ)
    → ((j : ℕ) → j < i + n → Defined (fn j))
    → (pal : List Rgba) × (convert_entries fn n i ≡ some pal) × (length pal ≡ n)
unfolding convert_entries
convert_entries-total fn zero i all = ([], refl, refl)
convert_entries-total fn (suc n) i all =
    let (c, e) = all i (omega arith) in
    let (rest, e', len) = convert_entries-total fn n (i + 1) (λ j h. all j (omega arith)) in
    (c ∷ rest, rw (e, e'), ap suc len)

module _ (m : Memory) (start : ℕ) where
  entry-Defined : (i k : ℕ) → start + (4 * i + k) < m.size → Defined (entry m (pos start) i k)
  unfolding entry load_at
  entry-Defined i k h = (
    m.cell (start + (4 * i + k)),
    rw (pos-add start (4 * i + k)) (load_lem m (start + (4 * i + k)) h),
  )

  -- Two entries of a palette of 16.
  module _ (room : start + 64 ≤ m.size) (i1 i2 : ℕ) (h1 : i1 < 16) (h2 : i2 < 16) where
    sum_u8-Defined : (k : ℕ) → k < 4 → Defined (sum_u8 m (pos start) i1 i2 k)
    unfolding sum_u8
    sum_u8-Defined k h =
        bind-Defined _ _ (entry-Defined i1 k (omega arith))
          λ a. bind-Defined _ _ (entry-Defined i2 k (omega arith)) λ b. (a + b, refl)

    chroma-Defined : (k : ℕ) → k < 4 → Defined (chroma m (pos start) i1 i2 k)
    unfolding chroma
    chroma-Defined k h =
        bind-Defined _ _
          (bind-Defined _ _ (entry-Defined i1 k (omega arith))
            λ a. bind-Defined _ _ (entry-Defined i2 k (omega arith)) λ b. (_, refl))
          λ sum. (_, refl)

    type4_pair-Defined : Defined (palette_type4_pair m (pos start) i1 i2)
    unfolding palette_type4_pair
    type4_pair-Defined = bind-Defined _ _ (sum_u8-Defined 3 (omega arith)) λ a.
        bind-Defined _ _ (sum_u8-Defined 2 (omega arith)) λ y.
          bind-Defined _ _ (chroma-Defined 1 (omega arith))
            λ u. bind-Defined _ _ (chroma-Defined 0 (omega arith)) λ v. (_, refl)

  low_small : (pixel : ℕ) → low_nibble pixel < 16
  low_small pixel = omega (arith, bit_and_fifteen pixel)

  high_small : (pixel : ℕ) → pixel < 256 → high_nibble pixel < 16
  high_small pixel h = omega (arith, mask_f0 pixel h)

  module _ (room : start + 64 ≤ m.size) (pixel : ℕ) (byte : pixel < 256) where
    pub type1-Defined : Defined (palette_type1_to_rgba m (pos start) pixel)
    unfolding palette_type1_to_rgba
    type1-Defined =
        let i1 = low_nibble pixel in
        let i2 = high_nibble pixel in
        let low = low_small pixel in
        let high = high_small pixel byte in
        bind-Defined _ _ (sum_u8-Defined room i1 i2 low high 0 (omega arith)) λ a.
          bind-Defined _ _
            (if-Defined (i1 == 0) _ _ (_, refl)
              (chroma-Defined room i1 i2 low high 2 (omega arith)))
            λ u.
              bind-Defined _ _
                (if-Defined (i1 == 0) _ _ (_, refl)
                  (chroma-Defined room i1 i2 low high 3 (omega arith)))
                λ v.
                  bind-Defined _ _ (sum_u8-Defined room i1 i2 low high 1 (omega arith))
                    λ y. (_, refl)

    pub type2-Defined : Defined (palette_type2_to_rgba m (pos start) pixel)
    unfolding palette_type2_to_rgba
    type2-Defined =
        let i1 = low_nibble pixel in
        let i2 = high_nibble pixel in
        let low = low_small pixel in
        let high = high_small pixel byte in
        bind-Defined _ _ (sum_u8-Defined room i1 i2 low high 0 (omega arith)) λ a.
          bind-Defined _ _ (sum_u8-Defined room i1 i2 low high 1 (omega arith)) λ y.
            bind-Defined _ _ (chroma-Defined room i1 i2 low high 2 (omega arith)) λ u.
              bind-Defined _ _ (chroma-Defined room i1 i2 low high 3 (omega arith)) λ v. (_, refl)

    pub type4-Defined : Defined (palette_type4_to_rgba m (pos start) pixel)
    unfolding palette_type4_to_rgba
    type4-Defined =
        if-Defined (pixel == 0) _ _ (_, refl)
          (type4_pair-Defined room (low_nibble pixel) (high_nibble pixel) (low_small pixel)
            (high_small pixel byte))

  pub vuya-Defined :
      (pixel shift : ℕ)
      → start + 1024 ≤ m.size
      → pixel < 256
      → Defined (palette_ayuv_to_rgba m (pos start) pixel shift)
  unfolding palette_ayuv_to_rgba palette_vuya_entry
  vuya-Defined pixel shift room byte =
      if-Defined (pixel == 0) _ _ (_, refl)
        (bind-Defined _ _ (entry-Defined pixel 3 (omega arith)) λ a.
          bind-Defined _ _ (entry-Defined pixel 2 (omega arith)) λ y.
            bind-Defined _ _ (entry-Defined pixel 0 (omega arith))
              λ v. bind-Defined _ _ (entry-Defined pixel 1 (omega arith)) λ u. (_, refl))

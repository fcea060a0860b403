-- ===== src/Rawimg/Image/Grid.antt =====
-- Blocks of an image in memory: they lie inside the buffer and do not overlap.
use native.Mathlib.Decide.{dec_lt}
use chdkptp_jet_tx1_jet_nano.Common.{ℕ, ◌+◌, ◌*◌, ◌≤◌, ◌<◌, ◌≡◌, ◌≢◌, ◌⊎◌, inl, inr, arith, ap}

-- A later row starts a whole row on.
row_after : (w y q y' q' : ℕ) → q < w → y < y' → y * w + q < y' * w + q'
row_after w y q y' q' hq h = grind arith

-- Block `q` of row `y` is block `y * w + q` of the image, and the number tells which it is.
pub block_index_injective :
    (w y q y' q' : ℕ) → q < w → q' < w → y * w + q ≡ y' * w + q' → (y ≡ y') × (q ≡ q')
block_index_injective w y q y' q' hq hq' e = elim (dec_lt y y') [
  | yes h ↦ absurd (omega (arith, row_after w y q y' q' hq h))
  | no h ↦ elim (dec_lt y' y) [
    | yes h' ↦ absurd (omega (arith, row_after w y' q' y q hq' h'))
    | no h' ↦ same (omega arith)
  ]
]
  where
    same : y ≡ y' → (y ≡ y') × (q ≡ q')
    same p = (p, omega (arith, ap (λ (t : ℕ). t * w) p))

-- Blocks with different numbers do not overlap.
pub blocks_apart : (n i j : ℕ) → i ≢ j → (i * n + n ≤ j * n) ⊎ (j * n + n ≤ i * n)
blocks_apart n i j ne = elim (dec_lt i j) [
  | yes h ↦ inl (grind arith)
  | no h ↦ inr (after (omega arith))
]
  where
    after : j < i → j * n + n ≤ i * n
    after h = grind arith

mul_mono : (n a b : ℕ) → a ≤ b → a * n ≤ b * n
mul_mono n a b h = grind arith

-- A block of the image ends inside its rows.
pub block_in_rows : (n w h y q : ℕ) → q < w → y < h → y * (w * n) + q * n + n ≤ w * n * h
block_in_rows n w h y q hq hy = omega (arith, mul_mono n (y * w + q + 1) (h * w) (inside hq hy))
  where
    inside : q < w → y < h → y * w + q + 1 ≤ h * w
    inside p r = grind arith

-- ===== src/Common/Masks.antt =====
-- The masks of rawimg.c on bytes, as arithmetic: `a & mask` keeps some bits of a byte, and `|` puts
-- a field beside them.
use Prim.Native.Nat.{ℕ, ◌+◌, ◌*◌, ◌/◌, ◌%◌, ◌^◌, ◌<◌, bit_and, bit_or}
use mathlib.Core.Path.{◌≡◌, refl}
use mathlib.Core.Bool.{true}
use native.Mathlib.Omega.{arith}
use chdkptp_jet_tx1_jet_nano.Common.Tests.{◌==◌, ==_iff}
use chdkptp_jet_tx1_jet_nano.Common.Cases.{passes_below, passes_below-apply}
use chdkptp_jet_tx1_jet_nano.Common.Bits.{
  ◌<<◌, ◌>>◌, bit_or_disjoint, bit_or_disjoint_rev, bit_and_three, bit_and_fifteen,
  bit_and_sixty_three,
}

-- A table over all bytes, read at one of them.
by_table : (f g : ℕ → ℕ) (a : ℕ) → passes_below (λ x. f x == g x) 256 ≡ true → a < 256 → f a ≡ g a
by_table f g a table h = (==_iff _ _).0 (passes_below-apply (λ x. f x == g x) a 256 h table)

mask_fc : (a : ℕ) → a < 256 → bit_and a 0xfc ≡ a / 4 * 2 ^ 2
unfolding passes_below
mask_fc a = by_table (λ x. bit_and x 0xfc) (λ x. x / 4 * 2 ^ 2) a refl

pub mask_f0 : (a : ℕ) → a < 256 → bit_and a 0xf0 ≡ a / 16 * 2 ^ 4
unfolding passes_below
mask_f0 a = by_table (λ x. bit_and x 0xf0) (λ x. x / 16 * 2 ^ 4) a refl

mask_c0 : (a : ℕ) → a < 256 → bit_and a 0xc0 ≡ a / 64 * 2 ^ 6
unfolding passes_below
mask_c0 a = by_table (λ x. bit_and x 0xc0) (λ x. x / 64 * 2 ^ 6) a refl

mask_3fc : (a : ℕ) → a < 256 → bit_and 0x3fc (a << 2) ≡ a * 2 ^ 2
unfolding passes_below
mask_3fc a = by_table (λ x. bit_and 0x3fc (x << 2)) (λ x. x * 2 ^ 2) a refl

mask_3f0 : (a : ℕ) → a < 256 → bit_and 0x3f0 (a << 4) ≡ a % 64 * 2 ^ 4
unfolding passes_below
mask_3f0 a = by_table (λ x. bit_and 0x3f0 (x << 4)) (λ x. x % 64 * 2 ^ 4) a refl

mask_3c0 : (a : ℕ) → a < 256 → bit_and 0x3c0 (a << 6) ≡ a % 16 * 2 ^ 6
unfolding passes_below
mask_3c0 a = by_table (λ x. bit_and 0x3c0 (x << 6)) (λ x. x % 16 * 2 ^ 6) a refl

mask_300 : (a : ℕ) → a < 256 → bit_and 0x300 (a << 8) ≡ a % 4 * 2 ^ 8
unfolding passes_below
mask_300 a = by_table (λ x. bit_and 0x300 (x << 8)) (λ x. x % 4 * 2 ^ 8) a refl

-- The low bits of a byte stay, and a value is put above them.
pub keep_low_2 : (a v : ℕ) → v < 2 ^ 16 → bit_or (bit_and a 0x03) (v << 2) ≡ a % 4 + v * 4
keep_low_2 a v h = ground (arith, bit_and_three a, bit_or_disjoint_rev 2 v (a % 4))

pub keep_low_4 : (a v : ℕ) → v < 2 ^ 16 → bit_or (bit_and a 0x0f) (v << 4) ≡ a % 16 + v * 16
keep_low_4 a v h = ground (arith, bit_and_fifteen a, bit_or_disjoint_rev 4 v (a % 16))

pub keep_low_6 : (a v : ℕ) → v < 2 ^ 16 → bit_or (bit_and a 0x3f) (v << 6) ≡ a % 64 + v * 64
keep_low_6 a v h = ground (arith, bit_and_sixty_three a, bit_or_disjoint_rev 6 v (a % 64))

-- The high bits of a byte stay, and a small value is put below them.
pub keep_high_6 : (a w : ℕ) → a < 256 → w < 4 → bit_or (bit_and a 0xfc) w ≡ a / 4 * 4 + w
keep_high_6 a w h k = rw (mask_fc a h) (bit_or_disjoint 2 (a / 4) w k)

pub keep_high_4 : (a w : ℕ) → a < 256 → w < 16 → bit_or (bit_and a 0xf0) w ≡ a / 16 * 16 + w
keep_high_4 a w h k = rw (mask_f0 a h) (bit_or_disjoint 4 (a / 16) w k)

pub keep_high_2 : (a w : ℕ) → a < 256 → w < 64 → bit_or (bit_and a 0xc0) w ≡ a / 64 * 64 + w
keep_high_2 a w h k = rw (mask_c0 a h) (bit_or_disjoint 6 (a / 64) w k)

module _ (a b : ℕ) (ha : a < 256) (hb : b < 256) where
  -- Two bytes joined to a pixel of 10 bits.
  pub join_8_2 : bit_or (bit_and 0x3fc (a << 2)) (b >> 6) ≡ a * 4 + b / 64
  join_8_2 = rw (mask_3fc a ha) (bit_or_disjoint 2 a (b / 64) (omega arith))

  pub join_6_4 : bit_or (bit_and 0x3f0 (a << 4)) (b >> 4) ≡ a % 64 * 16 + b / 16
  join_6_4 = rw (mask_3f0 a ha) (bit_or_disjoint 4 (a % 64) (b / 16) (omega arith))

  pub join_4_6 : bit_or (bit_and 0x3c0 (a << 6)) (b >> 2) ≡ a % 16 * 64 + b / 4
  join_4_6 = rw (mask_3c0 a ha) (bit_or_disjoint 6 (a % 16) (b / 4) (omega arith))

  pub join_2_8 : bit_or (bit_and 0x300 (a << 8)) b ≡ a % 4 * 256 + b
  join_2_8 = rw (mask_300 a ha) (bit_or_disjoint 8 (a % 4) b hb)

  -- Of 12 bits.
  pub join_8_4 : bit_or (a << 4) (b >> 4) ≡ a * 16 + b / 16
  join_8_4 = ground (arith, bit_or_disjoint 4 a (b / 16))

  pub join_4_8 : bit_or (bit_and a 0x0f << 8) b ≡ a % 16 * 256 + b
  join_4_8 = ground (arith, bit_and_fifteen a, bit_or_disjoint 8 (a % 16) b)

  -- Of 14 bits.
  pub join_8_6 : bit_or (a << 6) (b >> 2) ≡ a * 64 + b / 4
  join_8_6 = ground (arith, bit_or_disjoint 6 a (b / 4))

  pub join_6_8 : bit_or (bit_and a 0x3f << 8) b ≡ a % 64 * 256 + b
  join_6_8 = ground (arith, bit_and_sixty_three a, bit_or_disjoint 8 (a % 64) b)

  -- Of 16 bits.
  pub join_8_8 : bit_or (a << 8) b ≡ a * 256 + b
  join_8_8 = ground (arith, bit_or_disjoint 8 a b)

module _ (a b c : ℕ) (ha : a < 256) (hb : b < 256) (hc : c < 256) where
  -- Three bytes joined to a pixel of 14 bits.
  pub join_2_8_4 :
      bit_or (bit_or (bit_and a 0x03 << 12) (b << 4)) (c >> 4) ≡ a % 4 * 4096 + b * 16 + c / 16
  join_2_8_4 = ground (
    arith,
    bit_and_three a,
    bit_or_disjoint 12 (a % 4) (b * 16),
    bit_or_disjoint 4 (a % 4 * 256 + b) (c / 16),
  )

  pub join_4_8_2 :
      bit_or (bit_or (bit_and a 0x0f << 10) (b << 2)) (c >> 6) ≡ a % 16 * 1024 + b * 4 + c / 64
  join_4_8_2 = ground (
    arith,
    bit_and_fifteen a,
    bit_or_disjoint 10 (a % 16) (b * 4),
    bit_or_disjoint 2 (a % 16 * 256 + b) (c / 64),
  )

-- ===== src/Common/Bits.antt =====
-- C's shifts and masks as arithmetic.
use Prim.Native.Nat.{ℕ, zero, suc, ◌+◌, ◌*◌, ◌/◌, ◌%◌, ◌^◌, ◌-◌, ◌≤◌, ◌<◌, min, max}
use Prim.Native.Nat.{bit_and, bit_or, digits, bitwise, bit_and-bitwise, bit_or-bitwise}
use native.Mathlib.Nat.{le_refl, pow-suc}
use mathlib.Core.Path.{◌≡◌, refl, ap}
use native.Mathlib.Omega.{arith}

-- Casts to the fixed widths.
abbrev pub u8 : ℕ → ℕ
u8 n = n % 2 ^ 8

abbrev pub u16 : ℕ → ℕ
u16 n = n % 2 ^ 16

abbrev pub u32 : ℕ → ℕ
u32 n = n % 2 ^ 32

-- `x << k` on a 32-bit unsigned, and `x >> k`.
infixl 75 ◌<<◌ ◌>>◌
abbrev pub ◌<<◌ : ℕ → ℕ → ℕ
x << k = u32 (x * 2 ^ k)

abbrev pub ◌>>◌ : ℕ → ℕ → ℕ
x >> k = x / 2 ^ k

-- The recursion on binary digits needs no more fuel than its first number.
module _ (rest : ℕ → ℕ) (op : ℕ → ℕ → ℕ) where
  digits_enough : (a b n m : ℕ) → a ≤ m → a ≤ n → digits rest op n a b ≡ digits rest op m a b
  digits_enough zero b (suc n) (suc m) small small' = refl
  digits_enough zero b (suc n) zero small small' = refl
  digits_enough zero b zero (suc m) small small' = refl
  digits_enough zero b zero zero small small' = refl
  digits_enough (suc a) b (suc n) (suc m) small small' =
      ap (λ h. h * 2 + op (suc a % 2) (b % 2))
        (digits_enough (suc a / 2) (b / 2) n m (omega arith) (omega arith))
  digits_enough (suc a) b zero m small small' = absurd (omega arith)
  digits_enough (suc a) b (suc n) zero small small' = absurd (omega arith)

  lowest_digit :
      (a b : ℕ)
      → bitwise rest op (suc a) b ≡ bitwise rest op (suc a / 2) (b / 2) * 2 + op (suc a % 2) (b % 2)
  lowest_digit a b =
      omega (arith, digits_enough (suc a / 2) (b / 2) a (suc a / 2) (le_refl _) (omega arith))

bit_or_half : (a b : ℕ) → bit_or a b ≡ bit_or (a / 2) (b / 2) * 2 + max (a % 2) (b % 2)
bit_or_half zero b = simp bit_or-bitwise (omega arith)
bit_or_half (suc a) b = simp bit_or-bitwise (lowest_digit (λ y. y) max a b)

bit_and_half : (a b : ℕ) → bit_and a b ≡ bit_and (a / 2) (b / 2) * 2 + min (a % 2) (b % 2)
bit_and_half zero b = simp bit_and-bitwise (omega arith)
bit_and_half (suc a) b = simp bit_and-bitwise (lowest_digit (λ y. 0) min a b)

masked_by_zero : (n a : ℕ) → a ≤ n → (bit_or a 0 ≡ a) × (bit_and a 0 ≡ 0)
masked_by_zero n zero small = (refl, refl)
masked_by_zero zero (suc a) small = absurd (omega arith)
masked_by_zero (suc n) (suc a) small =
    let half = masked_by_zero n (suc a / 2) (omega arith) in
    (omega (arith, bit_or_half (suc a) 0, half.0), omega (arith, bit_and_half (suc a) 0, half.1))

bit_or-zero : (a : ℕ) → bit_or a 0 ≡ a
bit_or-zero a = (masked_by_zero a a (le_refl a)).0

bit_and-zero : (a : ℕ) → bit_and a 0 ≡ 0
bit_and-zero a = (masked_by_zero a a (le_refl a)).1

shift_out : (q k : ℕ) → q * 2 ^ suc k ≡ 2 * (q * 2 ^ k)
shift_out q k = omega (arith, ap (λ (t : ℕ). q * t) (pow-suc 2 k))

-- `|` of a multiple of 2 ^ k and a number of k bits is their sum.
pub bit_or_disjoint : (k q r : ℕ) → r < 2 ^ k → bit_or (q * 2 ^ k) r ≡ q * 2 ^ k + r
bit_or_disjoint zero q r h = ground (arith, bit_or-zero q)
bit_or_disjoint (suc k) q r h =
    ground (
      arith,
      bit_or_half (q * 2 ^ suc k) r,
      shift_out q k,
      bit_or_disjoint k q (r / 2) (omega arith),
    )

-- The same with the number of k bits first.
pub bit_or_disjoint_rev : (k q r : ℕ) → r < 2 ^ k → bit_or r (q * 2 ^ k) ≡ q * 2 ^ k + r
bit_or_disjoint_rev zero q zero h = ground (arith, bit_or-bitwise 0 (q * 2 ^ 0))
bit_or_disjoint_rev zero q (suc r) h = absurd (omega arith)
bit_or_disjoint_rev (suc k) q r h = ground (
  arith,
  bit_or_half r (q * 2 ^ suc k),
  shift_out q k,
  bit_or_disjoint_rev k q (r / 2) (omega arith),
)

bit_and_low : (k q r : ℕ) → r < 2 ^ k → bit_and (q * 2 ^ k + r) (2 ^ k - 1) ≡ r
bit_and_low zero q r h = rw bit_and-zero (omega arith)
bit_and_low (suc k) q r h = ground (
  arith,
  bit_and_half (q * 2 ^ suc k + r) (2 ^ suc k - 1),
  shift_out q k,
  pow-suc 2 k,
  bit_and_low k q (r / 2) (omega arith),
)

-- `&` with a mask of low bits is a remainder.
pub bit_and_one : (a : ℕ) → bit_and a 1 ≡ a % 2
bit_and_one a = ground (arith, bit_and_low 1 (a / 2) (a % 2))

pub bit_and_three : (a : ℕ) → bit_and a 3 ≡ a % 4
bit_and_three a = ground (arith, bit_and_low 2 (a / 4) (a % 4))

pub bit_and_seven : (a : ℕ) → bit_and a 7 ≡ a % 8
bit_and_seven a = ground (arith, bit_and_low 3 (a / 8) (a % 8))

pub bit_and_fifteen : (a : ℕ) → bit_and a 0x0f ≡ a % 16
bit_and_fifteen a = ground (arith, bit_and_low 4 (a / 16) (a % 16))

pub bit_and_sixty_three : (a : ℕ) → bit_and a 0x3f ≡ a % 64
bit_and_sixty_three a = ground (arith, bit_and_low 6 (a / 64) (a % 64))

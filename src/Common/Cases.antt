-- ===== src/Common/Cases.antt =====
-- Exhaustive case splits on a number below a bound.
use Prim.Native.Nat.{ℕ, zero, suc, ◌<◌}
use mathlib.Core.Path.{◌≡◌, subst}
use native.Mathlib.Decide.{dec_lt}
use mathlib.Core.Bool.{Bool, true, ◌&&◌}
use native.Mathlib.Omega.{arith}

-- Whether a test passes at every number below a bound.
unfoldable pub passes_below : (ℕ → Bool) → ℕ → Bool
passes_below test zero = true
passes_below test (suc bound) = passes_below test bound && test bound

pub passes_below-apply :
    (test : ℕ → Bool) (k bound : ℕ) → k < bound → passes_below test bound ≡ true → test k ≡ true
unfolding passes_below
passes_below-apply test k zero small passed = absurd (omega arith)
passes_below-apply test k (suc bound) small passed = ground (arith, passes_below-apply test k bound)

pub cases1 {ℓ} : (P : ℕ → Type ℓ) → P 0 → (k : ℕ) → k < 1 → P k
cases1 P p zero h = p
cases1 P p (suc k) h = absurd (omega arith)

pub cases2 {ℓ} : (P : ℕ → Type ℓ) → P 0 → P 1 → (k : ℕ) → k < 2 → P k
cases2 P p q zero h = p
cases2 P p q (suc k) h = cases1 (λ n. P (suc n)) q k (omega arith)

pub cases4 {ℓ} : (P : ℕ → Type ℓ) → P 0 → P 1 → P 2 → P 3 → (k : ℕ) → k < 4 → P k
cases4 P p q r s zero h = p
cases4 P p q r s (suc zero) h = q
cases4 P p q r s (suc (suc k)) h = cases2 (λ n. P (suc (suc n))) r s k (omega arith)

pub cases8 {ℓ} :
    (P : ℕ → Type ℓ) → P 0 → P 1 → P 2 → P 3 → P 4 → P 5 → P 6 → P 7 → (k : ℕ) → k < 8 → P k
cases8 P a b c d e f g j zero h = a
cases8 P a b c d e f g j (suc zero) h = b
cases8 P a b c d e f g j (suc (suc zero)) h = c
cases8 P a b c d e f g j (suc (suc (suc zero))) h = d
cases8 P a b c d e f g j (suc (suc (suc (suc k)))) h =
    cases4 (λ n. P (suc (suc (suc (suc n))))) e f g j k (omega arith)

-- The statement at every number below a bound, as a tuple.
abbrev pub EachBelow : (ℕ → Type 0) → ℕ → Type 0
EachBelow P zero = Unit
EachBelow P (suc n) = P n × EachBelow P n

pub EachBelow-apply : (P : ℕ → Type 0) (n : ℕ) → EachBelow P n → (k : ℕ) → k < n → P k
EachBelow-apply P zero all k h = absurd (omega arith)
EachBelow-apply P (suc n) all k h = elim (dec_lt k n) [
  | yes below ↦ EachBelow-apply P n all.1 k below
  | no top ↦ let same : n ≡ k = omega arith in subst P same all.0
]

pub EachBelow-intro : (P : ℕ → Type 0) (n : ℕ) → ((k : ℕ) → P k) → EachBelow P n
EachBelow-intro P zero all = tt
EachBelow-intro P (suc n) all = (all n, EachBelow-intro P n all)

-- ===== src/Common/Bytes.antt =====
-- A block of bytes as `malloc` returns it. An access outside the block, which C leaves
-- undefined, is `none`.
use Prim.Native.Nat.{ℕ, zero, suc, ◌+◌, ◌<◌}
use mathlib.Core.Path.{◌≡◌, refl}
use mathlib.Core.Logic.{◌≢◌}
use mathlib.Core.Option.{Option, none, some}
use mathlib.Core.List.{List, [], ◌∷◌}
use native.Mathlib.Omega.{arith}
use chdkptp_jet_tx1_jet_nano.Common.Tests.{ltb, ◌==◌, if◌then◌else◌}
use chdkptp_jet_tx1_jet_nano.Common.Bits.{u8}

pub record Memory : Type 0 where
  pub size : ℕ
  pub cell : ℕ → ℕ

-- Every cell holds a byte.
abbrev pub IsBytes : Memory → Type 0
IsBytes m = (i : ℕ) → m.cell i < 256

infixl 5 ◌>>=◌
abbrev pub ◌>>=◌ {ℓ κ} : {A : Type ℓ} {B : Type κ} → Option A → (A → Option B) → Option B
none >>= f = none
some a >>= f = f a

-- `p[i]`.
unfoldable pub load : Memory → ℕ → Option ℕ
load m i = if ltb i m.size then some (m.cell i) else none

-- The write that `store` makes inside the block.
unfoldable pub put : Memory → ℕ → ℕ → Memory
put m i v = record m { cell = λ j. if i == j then u8 v else m.cell j }

-- `p[i] = v` through a byte pointer: the value is cut to a byte.
unfoldable pub store : Memory → ℕ → ℕ → Option Memory
store m i v = if ltb i m.size then some (put m i v) else none

pub load_lem : (m : Memory) (i : ℕ) → i < m.size → load m i ≡ some (m.cell i)
unfolding load
load_lem m i h = ground arith

pub store_lem : (m : Memory) (i v : ℕ) → i < m.size → store m i v ≡ some (put m i v)
unfolding store
store_lem m i v h = ground arith

pub size-put : (m : Memory) (i v : ℕ) → (put m i v).size ≡ m.size
unfolding put
size-put m i v = refl

pub cell-put : (m : Memory) (i v j : ℕ) → (put m i v).cell j ≡ (if i == j then u8 v else m.cell j)
unfolding put
cell-put m i v j = refl

pub cell-put_self : (m : Memory) (i v : ℕ) → (put m i v).cell i ≡ u8 v
unfolding put
cell-put_self m i v = ground arith

pub cell-put_ne : (m : Memory) (i v j : ℕ) → i ≢ j → (put m i v).cell j ≡ m.cell j
unfolding put
cell-put_ne m i v j h = ground arith

pub put-IsBytes : (m : Memory) (i v : ℕ) → IsBytes m → IsBytes (put m i v)
unfolding put
put-IsBytes m i v h j = ground (arith, h j)

-- The `n` bytes from index `i` on, read without a check.
abbrev pub slice : (ℕ → ℕ) → ℕ → ℕ → List ℕ
slice c i zero = []
slice c i (suc n) = c i ∷ slice c (suc i) n

-- A write seen from a base address, where numerals decide.
pub cell-put_at :
    (m : Memory) (addr i v j : ℕ)
    → (put m (addr + i) v).cell (addr + j) ≡ (if i == j then u8 v else m.cell (addr + j))
unfolding put
cell-put_at m addr i v j = ground arith

-- ===== src/Rawimg/Laws/Packed.antt =====
-- What a pair of pixel functions has to do to a block of its layout.
use chdkptp_jet_tx1_jet_nano.Common.{
  ℕ, ◌+◌, ◌*◌, ◌^◌, ◌<◌, ◌≤◌, ◌≡◌, ◌⊎◌, refl, ◌∙◌, Option, some, List, [], ◌∷◌, ◌==◌, if◌then◌else◌,
  arith, Memory, IsBytes, put, size-put, cell-put_ne, put-IsBytes, load, load_lem, EachBelow,
  EachBelow-intro,
}
use chdkptp_jet_tx1_jet_nano.Rawimg.Layout.{Layout, block_number, pixel_of, weight}

-- The result `r` is memory `m` with pixel `k` of the block at `addr` replaced by `v`.
pub record IsReplaced (f : Layout) (m : Memory) (addr k v : ℕ) (r : Option Memory) : Type 0 where
  pub out : Memory
  pub returns : r ≡ some out
  pub same_size : out.size ≡ m.size
  pub bytes : IsBytes out
  pub outside : (j : ℕ) → (j < addr) ⊎ (addr + f.bytes ≤ j) → out.cell j ≡ m.cell j
  pub number :
      block_number f out addr + pixel_of f (block_number f m addr) k * weight f k
      ≡ block_number f m addr + v * weight f k

pub record IsPacked (f : Layout) (get : Memory → ℕ → ℕ → Option ℕ)
    (set : Memory → ℕ → ℕ → ℕ → Option Memory) : Type 0 where
  pub get_digit :
      (m : Memory) (addr k : ℕ)
      → IsBytes m
      → addr + f.bytes ≤ m.size
      → k < f.pixels
      → get m addr k ≡ some (pixel_of f (block_number f m addr) k)
  pub set_digit :
      (m : Memory) (addr k v : ℕ)
      → IsBytes m
      → addr + f.bytes ≤ m.size
      → k < f.pixels
      → v < 2 ^ f.bits
      → IsReplaced f m addr k v (set m addr k v)

-- A digit replaced in a number: the other digits stay.
pub record HasDigits (f : Layout) : Type 0 where
  pub digit :
      (b b' v k k' : ℕ)
      → k < f.pixels
      → k' < f.pixels
      → v < 2 ^ f.bits
      → b' + pixel_of f b k * weight f k ≡ b + v * weight f k
      → pixel_of f b' k' ≡ (if k == k' then v else pixel_of f b k')

-- The writes at offsets from `addr`, in order.
abbrev pub patch : Memory → ℕ → List (ℕ × ℕ) → Memory
patch m addr [] = m
patch m addr ((i, v) ∷ ws) = patch (put m (addr + i) v) addr ws

abbrev pub Within : ℕ → List (ℕ × ℕ) → Type 0
Within n [] = Unit
Within n ((i, v) ∷ ws) = (i < n) × Within n ws

pub size-patch : (m : Memory) (addr : ℕ) (ws : List (ℕ × ℕ)) → (patch m addr ws).size ≡ m.size
size-patch m addr [] = refl
size-patch m addr ((i, v) ∷ ws) = size-patch (put m (addr + i) v) addr ws ∙ size-put m (addr + i) v

pub patch-IsBytes :
    (m : Memory) (addr : ℕ) (ws : List (ℕ × ℕ)) → IsBytes m → IsBytes (patch m addr ws)
patch-IsBytes m addr [] b = b
patch-IsBytes m addr ((i, v) ∷ ws) b =
    patch-IsBytes (put m (addr + i) v) addr ws (put-IsBytes m (addr + i) v b)

pub cell-patch_outside :
    (m : Memory) (addr n : ℕ) (ws : List (ℕ × ℕ)) (j : ℕ)
    → Within n ws
    → (j < addr) ⊎ (addr + n ≤ j)
    → (patch m addr ws).cell j ≡ m.cell j
cell-patch_outside m addr n [] j w h = refl
cell-patch_outside m addr n ((i, v) ∷ ws) j w h =
    cell-patch_outside (put m (addr + i) v) addr n ws j w.1 h
    ∙ cell-put_ne m (addr + i) v j (omega arith)

pub patch-IsReplaced :
    (f : Layout) (m : Memory) (addr k v : ℕ) {r : Option Memory} (ws : List (ℕ × ℕ))
    → Within f.bytes ws
    → IsBytes m
    → r ≡ some (patch m addr ws)
    → block_number f (patch m addr ws) addr + pixel_of f (block_number f m addr) k * weight f k
      ≡ block_number f m addr + v * weight f k
    → IsReplaced f m addr k v r
patch-IsReplaced f m addr k v ws w b e n = record {
  out = patch m addr ws;
  returns = e;
  same_size = size-patch m addr ws;
  bytes = patch-IsBytes m addr ws b;
  outside = λ j h. cell-patch_outside m addr f.bytes ws j w h;
  number = n;
}

-- The bounds of the first `n` cells from `addr` on, in the form that arithmetic reads.
pub cell_bounds : (m : Memory) (addr n : ℕ) → IsBytes m → EachBelow (λ i. m.cell (addr + i) < 256) n
cell_bounds m addr n b = EachBelow-intro (λ i. m.cell (addr + i) < 256) n (λ i. b (addr + i))

pub load_at :
    (m : Memory) (addr i n : ℕ)
    → addr + n ≤ m.size
    → i < n
    → load m (addr + i) ≡ some (m.cell (addr + i))
load_at m addr i n fits h = load_lem m (addr + i) (omega arith)

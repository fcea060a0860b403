-- ===== src/Rawimg/Laws/FourteenBig.antt =====
-- The 14-bit big endian pixel functions: a block is a number whose digits are its pixels.
use chdkptp_jet_tx1_jet_nano.Common.{
  ℕ, ◌+◌, ◌*◌, ◌/◌, ◌%◌, ◌^◌, ◌<◌, ◌≤◌, false, ◌≡◌, some, arith, ap, [], ◌∷◌, ◌==◌, if◌then◌else◌,
  Memory, IsBytes, load, store, put, cell-put_at, EachBelow, EachBelow-apply, cases4, join_2_8_4,
  join_4_8_2, join_6_8, join_8_6, keep_high_2, keep_high_4, keep_high_6, keep_low_2, keep_low_4,
  keep_low_6,
}
use chdkptp_jet_tx1_jet_nano.Rawimg.Layout.{Layout, pixel_of, block_number, weight}
use chdkptp_jet_tx1_jet_nano.Rawimg.Pixel.{get_case_14b, set_case_14b}
use chdkptp_jet_tx1_jet_nano.Rawimg.Laws.Packed.{
  IsPacked, IsReplaced, HasDigits, patch-IsReplaced, cell_bounds, load_at,
}

-- 14-bit pixels, big endian.
abbrev pub fourteen_b : Layout
fourteen_b = record { bits = 14; bytes = 7; pixels = 4; swapped = false }

fourteen_b_rows :
    (b b' v : ℕ)
    → v < 2 ^ 14
    → (k : ℕ) → k < 4
    → b' + pixel_of fourteen_b b k * weight fourteen_b k ≡ b + v * weight fourteen_b k
    → EachBelow
        (λ k'. pixel_of fourteen_b b' k' ≡ (if k == k' then v else pixel_of fourteen_b b k'))
        4
fourteen_b_rows b b' v hv =
    cases4
      (λ k.
        b' + pixel_of fourteen_b b k * weight fourteen_b k ≡ b + v * weight fourteen_b k
        → EachBelow
            (λ k'. pixel_of fourteen_b b' k' ≡ (if k == k' then v else pixel_of fourteen_b b k')) 4)
      (omega arith) (omega arith) (omega arith) (omega arith)

pub fourteen_b-HasDigits : HasDigits fourteen_b
fourteen_b-HasDigits = record {
  digit = λ b b' v k k' hk hk' hv e.
      EachBelow-apply
        (λ k'. pixel_of fourteen_b b' k' ≡ (if k == k' then v else pixel_of fourteen_b b k')) 4
        (fourteen_b_rows b b' v hv k hk e) k' hk';
}

get_14b :
    (m : Memory) (addr k : ℕ)
    → IsBytes m
    → addr + 7 ≤ m.size
    → k < 4
    → get_case_14b m addr k ≡ some (pixel_of fourteen_b (block_number fourteen_b m addr) k)
unfolding get_case_14b
get_14b m addr k b fits =
    cases4
      (λ i. get_case_14b m addr i ≡ some (pixel_of fourteen_b (block_number fourteen_b m addr) i))
      (rw
        (
          load_at m addr 0 7 fits (omega arith),
          load_at m addr 1 7 fits (omega arith),
          join_8_6 (m.cell (addr + 0)) (m.cell (addr + 1)) (b _) (b _),
        )
        (ap some (omega (arith, cell_bounds m addr 7 b))))
      (rw
        (
          load_at m addr 1 7 fits (omega arith),
          load_at m addr 2 7 fits (omega arith),
          load_at m addr 3 7 fits (omega arith),
          join_2_8_4 (m.cell (addr + 1)) (m.cell (addr + 2)) (m.cell (addr + 3)) (b _) (b _) (b _),
        )
        (ap some (omega (arith, cell_bounds m addr 7 b))))
      (rw
        (
          load_at m addr 3 7 fits (omega arith),
          load_at m addr 4 7 fits (omega arith),
          load_at m addr 5 7 fits (omega arith),
          join_4_8_2 (m.cell (addr + 3)) (m.cell (addr + 4)) (m.cell (addr + 5)) (b _) (b _) (b _),
        )
        (ap some (omega (arith, cell_bounds m addr 7 b))))
      (rw
        (
          load_at m addr 5 7 fits (omega arith),
          load_at m addr 6 7 fits (omega arith),
          join_6_8 (m.cell (addr + 5)) (m.cell (addr + 6)) (b _) (b _),
        )
        (ap some (omega (arith, cell_bounds m addr 7 b))))
      k

set_14b_0 :
    (m : Memory) (addr v : ℕ)
    → IsBytes m
    → addr + 7 ≤ m.size
    → v < 2 ^ 14
    → IsReplaced fourteen_b m addr 0 v (set_case_14b m addr 0 v)
set_14b_0 m addr v b fits hv =
    patch-IsReplaced fourteen_b m addr 0 v
      ((1, m.cell (addr + 1) % 4 + v * 4) ∷ (0, v / 2 ^ 6) ∷ []) (omega arith) b
      (unfold set_case_14b load store put in
        ground (arith, keep_low_2 (m.cell (addr + 1)) v (omega arith)))
      (simp cell-put_at (omega (arith, cell_bounds m addr 7 b)))

set_14b_1 :
    (m : Memory) (addr v : ℕ)
    → IsBytes m
    → addr + 7 ≤ m.size
    → v < 2 ^ 14
    → IsReplaced fourteen_b m addr 1 v (set_case_14b m addr 1 v)
set_14b_1 m addr v b fits hv =
    patch-IsReplaced fourteen_b m addr 1 v
      ((1, m.cell (addr + 1) / 4 * 4 + v / 2 ^ 12)
        ∷ (3, m.cell (addr + 3) % 16 + v * 16)
        ∷ (2, v / 2 ^ 4)
        ∷ [])
      (omega arith) b
      (unfold set_case_14b load store put in
        ground (
          arith,
          keep_high_6 (m.cell (addr + 1)) (v / 2 ^ 12) (b _) (omega arith),
          keep_low_4 (m.cell (addr + 3)) v (omega arith),
        ))
      (simp cell-put_at (omega (arith, cell_bounds m addr 7 b)))

set_14b_2 :
    (m : Memory) (addr v : ℕ)
    → IsBytes m
    → addr + 7 ≤ m.size
    → v < 2 ^ 14
    → IsReplaced fourteen_b m addr 2 v (set_case_14b m addr 2 v)
set_14b_2 m addr v b fits hv =
    patch-IsReplaced fourteen_b m addr 2 v
      ((3, m.cell (addr + 3) / 16 * 16 + v / 2 ^ 10)
        ∷ (5, m.cell (addr + 5) % 64 + v * 64)
        ∷ (4, v / 2 ^ 2)
        ∷ [])
      (omega arith) b
      (unfold set_case_14b load store put in
        ground (
          arith,
          keep_high_4 (m.cell (addr + 3)) (v / 2 ^ 10) (b _) (omega arith),
          keep_low_6 (m.cell (addr + 5)) v (omega arith),
        ))
      (simp cell-put_at (omega (arith, cell_bounds m addr 7 b)))

set_14b_3 :
    (m : Memory) (addr v : ℕ)
    → IsBytes m
    → addr + 7 ≤ m.size
    → v < 2 ^ 14
    → IsReplaced fourteen_b m addr 3 v (set_case_14b m addr 3 v)
set_14b_3 m addr v b fits hv =
    patch-IsReplaced fourteen_b m addr 3 v
      ((5, m.cell (addr + 5) / 64 * 64 + v / 2 ^ 8) ∷ (6, v) ∷ []) (omega arith) b
      (unfold set_case_14b load store put in
        ground (arith, keep_high_2 (m.cell (addr + 5)) (v / 2 ^ 8) (b _) (omega arith)))
      (simp cell-put_at (omega (arith, cell_bounds m addr 7 b)))

pub fourteen_b-IsPacked : IsPacked fourteen_b get_case_14b set_case_14b
fourteen_b-IsPacked = record {
  get_digit = get_14b;
  set_digit = λ m addr k v b fits hk hv.
      cases4 (λ i. IsReplaced fourteen_b m addr i v (set_case_14b m addr i v))
        (set_14b_0 m addr v b fits hv) (set_14b_1 m addr v b fits hv) (set_14b_2 m addr v b fits hv)
        (set_14b_3 m addr v b fits hv) k hk;
}

-- ===== src/Rawimg/Laws/TenBig.antt =====
-- The 10-bit big endian pixel functions: a block is a number whose digits are its pixels.
use chdkptp_jet_tx1_jet_nano.Common.{
  ℕ, ◌+◌, ◌*◌, ◌/◌, ◌%◌, ◌^◌, ◌<◌, ◌≤◌, false, ◌≡◌, some, arith, ap, [], ◌∷◌, ◌==◌, if◌then◌else◌,
  Memory, IsBytes, load, store, put, cell-put_at, EachBelow, EachBelow-apply, cases4, join_2_8,
  join_4_6, join_6_4, join_8_2, keep_high_2, keep_high_4, keep_high_6, keep_low_2, keep_low_4,
  keep_low_6,
}
use chdkptp_jet_tx1_jet_nano.Rawimg.Layout.{Layout, pixel_of, block_number, weight}
use chdkptp_jet_tx1_jet_nano.Rawimg.Pixel.{get_case_10b, set_case_10b}
use chdkptp_jet_tx1_jet_nano.Rawimg.Laws.Packed.{
  IsPacked, IsReplaced, HasDigits, patch-IsReplaced, cell_bounds, load_at,
}

-- 10-bit pixels, big endian.
abbrev pub ten_b : Layout
ten_b = record { bits = 10; bytes = 5; pixels = 4; swapped = false }

ten_b_rows :
    (b b' v : ℕ)
    → v < 2 ^ 10
    → (k : ℕ) → k < 4
    → b' + pixel_of ten_b b k * weight ten_b k ≡ b + v * weight ten_b k
    → EachBelow (λ k'. pixel_of ten_b b' k' ≡ (if k == k' then v else pixel_of ten_b b k')) 4
ten_b_rows b b' v hv =
    cases4
      (λ k.
        b' + pixel_of ten_b b k * weight ten_b k ≡ b + v * weight ten_b k
        → EachBelow (λ k'. pixel_of ten_b b' k' ≡ (if k == k' then v else pixel_of ten_b b k')) 4)
      (omega arith) (omega arith) (omega arith) (omega arith)

pub ten_b-HasDigits : HasDigits ten_b
ten_b-HasDigits = record {
  digit = λ b b' v k k' hk hk' hv e.
      EachBelow-apply (λ k'. pixel_of ten_b b' k' ≡ (if k == k' then v else pixel_of ten_b b k')) 4
        (ten_b_rows b b' v hv k hk e) k' hk';
}

get_10b :
    (m : Memory) (addr k : ℕ)
    → IsBytes m
    → addr + 5 ≤ m.size
    → k < 4
    → get_case_10b m addr k ≡ some (pixel_of ten_b (block_number ten_b m addr) k)
unfolding get_case_10b
get_10b m addr k b fits =
    cases4 (λ i. get_case_10b m addr i ≡ some (pixel_of ten_b (block_number ten_b m addr) i))
      (rw
        (
          load_at m addr 0 5 fits (omega arith),
          load_at m addr 1 5 fits (omega arith),
          join_8_2 (m.cell (addr + 0)) (m.cell (addr + 1)) (b _) (b _),
        )
        (ap some (omega (arith, cell_bounds m addr 5 b))))
      (rw
        (
          load_at m addr 1 5 fits (omega arith),
          load_at m addr 2 5 fits (omega arith),
          join_6_4 (m.cell (addr + 1)) (m.cell (addr + 2)) (b _) (b _),
        )
        (ap some (omega (arith, cell_bounds m addr 5 b))))
      (rw
        (
          load_at m addr 2 5 fits (omega arith),
          load_at m addr 3 5 fits (omega arith),
          join_4_6 (m.cell (addr + 2)) (m.cell (addr + 3)) (b _) (b _),
        )
        (ap some (omega (arith, cell_bounds m addr 5 b))))
      (rw
        (
          load_at m addr 3 5 fits (omega arith),
          load_at m addr 4 5 fits (omega arith),
          join_2_8 (m.cell (addr + 3)) (m.cell (addr + 4)) (b _) (b _),
        )
        (ap some (omega (arith, cell_bounds m addr 5 b))))
      k

set_10b_0 :
    (m : Memory) (addr v : ℕ)
    → IsBytes m
    → addr + 5 ≤ m.size
    → v < 2 ^ 10
    → IsReplaced ten_b m addr 0 v (set_case_10b m addr 0 v)
set_10b_0 m addr v b fits hv =
    patch-IsReplaced ten_b m addr 0 v ((0, v / 2 ^ 2) ∷ (1, m.cell (addr + 1) % 64 + v * 64) ∷ [])
      (omega arith) b
      (unfold set_case_10b load store put in
        ground (arith, keep_low_6 (m.cell (addr + 1)) v (omega arith)))
      (simp cell-put_at (omega (arith, cell_bounds m addr 5 b)))

set_10b_1 :
    (m : Memory) (addr v : ℕ)
    → IsBytes m
    → addr + 5 ≤ m.size
    → v < 2 ^ 10
    → IsReplaced ten_b m addr 1 v (set_case_10b m addr 1 v)
set_10b_1 m addr v b fits hv =
    patch-IsReplaced ten_b m addr 1 v
      ((1, m.cell (addr + 1) / 64 * 64 + v / 2 ^ 4) ∷ (2, m.cell (addr + 2) % 16 + v * 16) ∷ [])
      (omega arith) b
      (unfold set_case_10b load store put in
        ground (
          arith,
          keep_high_2 (m.cell (addr + 1)) (v / 2 ^ 4) (b _) (omega arith),
          keep_low_4 (m.cell (addr + 2)) v (omega arith),
        ))
      (simp cell-put_at (omega (arith, cell_bounds m addr 5 b)))

set_10b_2 :
    (m : Memory) (addr v : ℕ)
    → IsBytes m
    → addr + 5 ≤ m.size
    → v < 2 ^ 10
    → IsReplaced ten_b m addr 2 v (set_case_10b m addr 2 v)
set_10b_2 m addr v b fits hv =
    patch-IsReplaced ten_b m addr 2 v
      ((3, m.cell (addr + 3) % 4 + v * 4) ∷ (2, m.cell (addr + 2) / 16 * 16 + v / 2 ^ 6) ∷ [])
      (omega arith) b
      (unfold set_case_10b load store put in
        ground (
          arith,
          keep_low_2 (m.cell (addr + 3)) v (omega arith),
          keep_high_4 (m.cell (addr + 2)) (v / 2 ^ 6) (b _) (omega arith),
        ))
      (simp cell-put_at (omega (arith, cell_bounds m addr 5 b)))

set_10b_3 :
    (m : Memory) (addr v : ℕ)
    → IsBytes m
    → addr + 5 ≤ m.size
    → v < 2 ^ 10
    → IsReplaced ten_b m addr 3 v (set_case_10b m addr 3 v)
set_10b_3 m addr v b fits hv =
    patch-IsReplaced ten_b m addr 3 v ((3, m.cell (addr + 3) / 4 * 4 + v / 2 ^ 8) ∷ (4, v) ∷ [])
      (omega arith) b
      (unfold set_case_10b load store put in
        ground (arith, keep_high_6 (m.cell (addr + 3)) (v / 2 ^ 8) (b _) (omega arith)))
      (simp cell-put_at (omega (arith, cell_bounds m addr 5 b)))

pub ten_b-IsPacked : IsPacked ten_b get_case_10b set_case_10b
ten_b-IsPacked = record {
  get_digit = get_10b;
  set_digit = λ m addr k v b fits hk hv.
      cases4 (λ i. IsReplaced ten_b m addr i v (set_case_10b m addr i v))
        (set_10b_0 m addr v b fits hv) (set_10b_1 m addr v b fits hv) (set_10b_2 m addr v b fits hv)
        (set_10b_3 m addr v b fits hv) k hk;
}

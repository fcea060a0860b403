-- ===== src/Rawimg/Laws/TenLittle.antt =====
-- The 10-bit little endian pixel functions: a block is a number whose digits are its pixels.
use chdkptp_jet_tx1_jet_nano.Common.{
  ℕ, ◌+◌, ◌*◌, ◌/◌, ◌%◌, ◌^◌, ◌<◌, ◌≤◌, true, ◌≡◌, some, arith, ap, [], ◌∷◌, ◌==◌, if◌then◌else◌,
  Memory, IsBytes, load, store, put, cell-put_at, EachBelow, EachBelow-apply, cases8, join_2_8,
  join_4_6, join_6_4, join_8_2, keep_high_2, keep_high_4, keep_high_6, keep_low_2, keep_low_4,
  keep_low_6,
}
use chdkptp_jet_tx1_jet_nano.Rawimg.Layout.{Layout, pixel_of, block_number, weight}
use chdkptp_jet_tx1_jet_nano.Rawimg.Pixel.{get_case_10l, set_case_10l}
use chdkptp_jet_tx1_jet_nano.Rawimg.Laws.Packed.{
  IsPacked, IsReplaced, HasDigits, patch-IsReplaced, cell_bounds, load_at,
}

-- 10-bit pixels, little endian.
abbrev pub ten_l : Layout
ten_l = record { bits = 10; bytes = 10; pixels = 8; swapped = true }

ten_l_rows :
    (b b' v : ℕ)
    → v < 2 ^ 10
    → (k : ℕ) → k < 8
    → b' + pixel_of ten_l b k * weight ten_l k ≡ b + v * weight ten_l k
    → EachBelow (λ k'. pixel_of ten_l b' k' ≡ (if k == k' then v else pixel_of ten_l b k')) 8
ten_l_rows b b' v hv =
    cases8
      (λ k.
        b' + pixel_of ten_l b k * weight ten_l k ≡ b + v * weight ten_l k
        → EachBelow (λ k'. pixel_of ten_l b' k' ≡ (if k == k' then v else pixel_of ten_l b k')) 8)
      (omega arith) (omega arith) (omega arith) (omega arith) (omega arith) (omega arith)
      (omega arith) (omega arith)

pub ten_l-HasDigits : HasDigits ten_l
ten_l-HasDigits = record {
  digit = λ b b' v k k' hk hk' hv e.
      EachBelow-apply (λ k'. pixel_of ten_l b' k' ≡ (if k == k' then v else pixel_of ten_l b k')) 8
        (ten_l_rows b b' v hv k hk e) k' hk';
}

get_10l :
    (m : Memory) (addr k : ℕ)
    → IsBytes m
    → addr + 10 ≤ m.size
    → k < 8
    → get_case_10l m addr k ≡ some (pixel_of ten_l (block_number ten_l m addr) k)
unfolding get_case_10l
get_10l m addr k b fits =
    cases8 (λ i. get_case_10l m addr i ≡ some (pixel_of ten_l (block_number ten_l m addr) i))
      (rw
        (
          load_at m addr 1 10 fits (omega arith),
          load_at m addr 0 10 fits (omega arith),
          join_8_2 (m.cell (addr + 1)) (m.cell (addr + 0)) (b _) (b _),
        )
        (ap some (omega (arith, cell_bounds m addr 10 b))))
      (rw
        (
          load_at m addr 0 10 fits (omega arith),
          load_at m addr 3 10 fits (omega arith),
          join_6_4 (m.cell (addr + 0)) (m.cell (addr + 3)) (b _) (b _),
        )
        (ap some (omega (arith, cell_bounds m addr 10 b))))
      (rw
        (
          load_at m addr 3 10 fits (omega arith),
          load_at m addr 2 10 fits (omega arith),
          join_4_6 (m.cell (addr + 3)) (m.cell (addr + 2)) (b _) (b _),
        )
        (ap some (omega (arith, cell_bounds m addr 10 b))))
      (rw
        (
          load_at m addr 2 10 fits (omega arith),
          load_at m addr 5 10 fits (omega arith),
          join_2_8 (m.cell (addr + 2)) (m.cell (addr + 5)) (b _) (b _),
        )
        (ap some (omega (arith, cell_bounds m addr 10 b))))
      (rw
        (
          load_at m addr 4 10 fits (omega arith),
          load_at m addr 7 10 fits (omega arith),
          join_8_2 (m.cell (addr + 4)) (m.cell (addr + 7)) (b _) (b _),
        )
        (ap some (omega (arith, cell_bounds m addr 10 b))))
      (rw
        (
          load_at m addr 7 10 fits (omega arith),
          load_at m addr 6 10 fits (omega arith),
          join_6_4 (m.cell (addr + 7)) (m.cell (addr + 6)) (b _) (b _),
        )
        (ap some (omega (arith, cell_bounds m addr 10 b))))
      (rw
        (
          load_at m addr 6 10 fits (omega arith),
          load_at m addr 9 10 fits (omega arith),
          join_4_6 (m.cell (addr + 6)) (m.cell (addr + 9)) (b _) (b _),
        )
        (ap some (omega (arith, cell_bounds m addr 10 b))))
      (rw
        (
          load_at m addr 9 10 fits (omega arith),
          load_at m addr 8 10 fits (omega arith),
          join_2_8 (m.cell (addr + 9)) (m.cell (addr + 8)) (b _) (b _),
        )
        (ap some (omega (arith, cell_bounds m addr 10 b))))
      k

set_10l_0 :
    (m : Memory) (addr v : ℕ)
    → IsBytes m
    → addr + 10 ≤ m.size
    → v < 2 ^ 10
    → IsReplaced ten_l m addr 0 v (set_case_10l m addr 0 v)
set_10l_0 m addr v b fits hv =
    patch-IsReplaced ten_l m addr 0 v ((0, m.cell (addr + 0) % 64 + v * 64) ∷ (1, v / 2 ^ 2) ∷ [])
      (omega arith) b
      (unfold set_case_10l load store put in
        ground (arith, keep_low_6 (m.cell (addr + 0)) v (omega arith)))
      (simp cell-put_at (omega (arith, cell_bounds m addr 10 b)))

set_10l_1 :
    (m : Memory) (addr v : ℕ)
    → IsBytes m
    → addr + 10 ≤ m.size
    → v < 2 ^ 10
    → IsReplaced ten_l m addr 1 v (set_case_10l m addr 1 v)
set_10l_1 m addr v b fits hv =
    patch-IsReplaced ten_l m addr 1 v
      ((0, m.cell (addr + 0) / 64 * 64 + v / 2 ^ 4) ∷ (3, m.cell (addr + 3) % 16 + v * 16) ∷ [])
      (omega arith) b
      (unfold set_case_10l load store put in
        ground (
          arith,
          keep_high_2 (m.cell (addr + 0)) (v / 2 ^ 4) (b _) (omega arith),
          keep_low_4 (m.cell (addr + 3)) v (omega arith),
        ))
      (simp cell-put_at (omega (arith, cell_bounds m addr 10 b)))

set_10l_2 :
    (m : Memory) (addr v : ℕ)
    → IsBytes m
    → addr + 10 ≤ m.size
    → v < 2 ^ 10
    → IsReplaced ten_l m addr 2 v (set_case_10l m addr 2 v)
set_10l_2 m addr v b fits hv =
    patch-IsReplaced ten_l m addr 2 v
      ((2, m.cell (addr + 2) % 4 + v * 4) ∷ (3, m.cell (addr + 3) / 16 * 16 + v / 2 ^ 6) ∷ [])
      (omega arith) b
      (unfold set_case_10l load store put in
        ground (
          arith,
          keep_low_2 (m.cell (addr + 2)) v (omega arith),
          keep_high_4 (m.cell (addr + 3)) (v / 2 ^ 6) (b _) (omega arith),
        ))
      (simp cell-put_at (omega (arith, cell_bounds m addr 10 b)))

set_10l_3 :
    (m : Memory) (addr v : ℕ)
    → IsBytes m
    → addr + 10 ≤ m.size
    → v < 2 ^ 10
    → IsReplaced ten_l m addr 3 v (set_case_10l m addr 3 v)
set_10l_3 m addr v b fits hv =
    patch-IsReplaced ten_l m addr 3 v ((2, m.cell (addr + 2) / 4 * 4 + v / 2 ^ 8) ∷ (5, v) ∷ [])
      (omega arith) b
      (unfold set_case_10l load store put in
        ground (arith, keep_high_6 (m.cell (addr + 2)) (v / 2 ^ 8) (b _) (omega arith)))
      (simp cell-put_at (omega (arith, cell_bounds m addr 10 b)))

set_10l_4 :
    (m : Memory) (addr v : ℕ)
    → IsBytes m
    → addr + 10 ≤ m.size
    → v < 2 ^ 10
    → IsReplaced ten_l m addr 4 v (set_case_10l m addr 4 v)
set_10l_4 m addr v b fits hv =
    patch-IsReplaced ten_l m addr 4 v ((4, v / 2 ^ 2) ∷ (7, m.cell (addr + 7) % 64 + v * 64) ∷ [])
      (omega arith) b
      (unfold set_case_10l load store put in
        ground (arith, keep_low_6 (m.cell (addr + 7)) v (omega arith)))
      (simp cell-put_at (omega (arith, cell_bounds m addr 10 b)))

set_10l_5 :
    (m : Memory) (addr v : ℕ)
    → IsBytes m
    → addr + 10 ≤ m.size
    → v < 2 ^ 10
    → IsReplaced ten_l m addr 5 v (set_case_10l m addr 5 v)
set_10l_5 m addr v b fits hv =
    patch-IsReplaced ten_l m addr 5 v
      ((6, m.cell (addr + 6) % 16 + v * 16) ∷ (7, m.cell (addr + 7) / 64 * 64 + v / 2 ^ 4) ∷ [])
      (omega arith) b
      (unfold set_case_10l load store put in
        ground (
          arith,
          keep_low_4 (m.cell (addr + 6)) v (omega arith),
          keep_high_2 (m.cell (addr + 7)) (v / 2 ^ 4) (b _) (omega arith),
        ))
      (simp cell-put_at (omega (arith, cell_bounds m addr 10 b)))

set_10l_6 :
    (m : Memory) (addr v : ℕ)
    → IsBytes m
    → addr + 10 ≤ m.size
    → v < 2 ^ 10
    → IsReplaced ten_l m addr 6 v (set_case_10l m addr 6 v)
set_10l_6 m addr v b fits hv =
    patch-IsReplaced ten_l m addr 6 v
      ((6, m.cell (addr + 6) / 16 * 16 + v / 2 ^ 6) ∷ (9, m.cell (addr + 9) % 4 + v * 4) ∷ [])
      (omega arith) b
      (unfold set_case_10l load store put in
        ground (
          arith,
          keep_high_4 (m.cell (addr + 6)) (v / 2 ^ 6) (b _) (omega arith),
          keep_low_2 (m.cell (addr + 9)) v (omega arith),
        ))
      (simp cell-put_at (omega (arith, cell_bounds m addr 10 b)))

set_10l_7 :
    (m : Memory) (addr v : ℕ)
    → IsBytes m
    → addr + 10 ≤ m.size
    → v < 2 ^ 10
    → IsReplaced ten_l m addr 7 v (set_case_10l m addr 7 v)
set_10l_7 m addr v b fits hv =
    patch-IsReplaced ten_l m addr 7 v ((8, v) ∷ (9, m.cell (addr + 9) / 4 * 4 + v / 2 ^ 8) ∷ [])
      (omega arith) b
      (unfold set_case_10l load store put in
        ground (arith, keep_high_6 (m.cell (addr + 9)) (v / 2 ^ 8) (b _) (omega arith)))
      (simp cell-put_at (omega (arith, cell_bounds m addr 10 b)))

pub ten_l-IsPacked : IsPacked ten_l get_case_10l set_case_10l
ten_l-IsPacked = record {
  get_digit = get_10l;
  set_digit = λ m addr k v b fits hk hv.
      cases8 (λ i. IsReplaced ten_l m addr i v (set_case_10l m addr i v))
        (set_10l_0 m addr v b fits hv) (set_10l_1 m addr v b fits hv) (set_10l_2 m addr v b fits hv)
        (set_10l_3 m addr v b fits hv) (set_10l_4 m addr v b fits hv) (set_10l_5 m addr v b fits hv)
        (set_10l_6 m addr v b fits hv) (set_10l_7 m addr v b fits hv) k hk;
}

-- ===== src/Rawimg/Laws/FourteenLittle.antt =====
-- The 14-bit little endian pixel functions: a block is a number whose digits are its pixels.
use chdkptp_jet_tx1_jet_nano.Common.{
  ℕ, ◌+◌, ◌*◌, ◌/◌, ◌%◌, ◌^◌, ◌<◌, ◌≤◌, true, ◌≡◌, some, arith, ap, [], ◌∷◌, ◌==◌, if◌then◌else◌,
  Memory, IsBytes, load, store, put, cell-put_at, EachBelow, EachBelow-apply, cases8, join_2_8_4,
  join_4_8_2, join_6_8, join_8_6, keep_high_2, keep_high_4, keep_high_6, keep_low_2, keep_low_4,
  keep_low_6,
}
use chdkptp_jet_tx1_jet_nano.Rawimg.Layout.{Layout, pixel_of, block_number, weight}
use chdkptp_jet_tx1_jet_nano.Rawimg.Pixel.{get_case_14l, set_case_14l}
use chdkptp_jet_tx1_jet_nano.Rawimg.Laws.Packed.{
  IsPacked, IsReplaced, HasDigits, patch-IsReplaced, cell_bounds, load_at,
}

-- 14-bit pixels, little endian.
abbrev pub fourteen_l : Layout
fourteen_l = record { bits = 14; bytes = 14; pixels = 8; swapped = true }

fourteen_l_rows :
    (b b' v : ℕ)
    → v < 2 ^ 14
    → (k : ℕ) → k < 8
    → b' + pixel_of fourteen_l b k * weight fourteen_l k ≡ b + v * weight fourteen_l k
    → EachBelow
        (λ k'. pixel_of fourteen_l b' k' ≡ (if k == k' then v else pixel_of fourteen_l b k'))
        8
fourteen_l_rows b b' v hv =
    cases8
      (λ k.
        b' + pixel_of fourteen_l b k * weight fourteen_l k ≡ b + v * weight fourteen_l k
        → EachBelow
            (λ k'. pixel_of fourteen_l b' k' ≡ (if k == k' then v else pixel_of fourteen_l b k')) 8)
      (omega arith) (omega arith) (omega arith) (omega arith) (omega arith) (omega arith)
      (omega arith) (omega arith)

pub fourteen_l-HasDigits : HasDigits fourteen_l
fourteen_l-HasDigits = record {
  digit = λ b b' v k k' hk hk' hv e.
      EachBelow-apply
        (λ k'. pixel_of fourteen_l b' k' ≡ (if k == k' then v else pixel_of fourteen_l b k')) 8
        (fourteen_l_rows b b' v hv k hk e) k' hk';
}

get_14l :
    (m : Memory) (addr k : ℕ)
    → IsBytes m
    → addr + 14 ≤ m.size
    → k < 8
    → get_case_14l m addr k ≡ some (pixel_of fourteen_l (block_number fourteen_l m addr) k)
unfolding get_case_14l
get_14l m addr k b fits =
    cases8
      (λ i. get_case_14l m addr i ≡ some (pixel_of fourteen_l (block_number fourteen_l m addr) i))
      (rw
        (
          load_at m addr 1 14 fits (omega arith),
          load_at m addr 0 14 fits (omega arith),
          join_8_6 (m.cell (addr + 1)) (m.cell (addr + 0)) (b _) (b _),
        )
        (ap some (omega (arith, cell_bounds m addr 14 b))))
      (rw
        (
          load_at m addr 0 14 fits (omega arith),
          load_at m addr 3 14 fits (omega arith),
          load_at m addr 2 14 fits (omega arith),
          join_2_8_4 (m.cell (addr + 0)) (m.cell (addr + 3)) (m.cell (addr + 2)) (b _) (b _) (b _),
        )
        (ap some (omega (arith, cell_bounds m addr 14 b))))
      (rw
        (
          load_at m addr 2 14 fits (omega arith),
          load_at m addr 5 14 fits (omega arith),
          load_at m addr 4 14 fits (omega arith),
          join_4_8_2 (m.cell (addr + 2)) (m.cell (addr + 5)) (m.cell (addr + 4)) (b _) (b _) (b _),
        )
        (ap some (omega (arith, cell_bounds m addr 14 b))))
      (rw
        (
          load_at m addr 4 14 fits (omega arith),
          load_at m addr 7 14 fits (omega arith),
          join_6_8 (m.cell (addr + 4)) (m.cell (addr + 7)) (b _) (b _),
        )
        (ap some (omega (arith, cell_bounds m addr 14 b))))
      (rw
        (
          load_at m addr 6 14 fits (omega arith),
          load_at m addr 9 14 fits (omega arith),
          join_8_6 (m.cell (addr + 6)) (m.cell (addr + 9)) (b _) (b _),
        )
        (ap some (omega (arith, cell_bounds m addr 14 b))))
      (rw
        (
          load_at m addr 9 14 fits (omega arith),
          load_at m addr 8 14 fits (omega arith),
          load_at m addr 11 14 fits (omega arith),
          join_2_8_4 (m.cell (addr + 9)) (m.cell (addr + 8)) (m.cell (addr + 11)) (b _) (b _) (b _),
        )
        (ap some (omega (arith, cell_bounds m addr 14 b))))
      (rw
        (
          load_at m addr 11 14 fits (omega arith),
          load_at m addr 10 14 fits (omega arith),
          load_at m addr 13 14 fits (omega arith),
          join_4_8_2 (m.cell (addr + 11)) (m.cell (addr + 10)) (m.cell (addr + 13)) (b _) (b _)
              (b _),
        )
        (ap some (omega (arith, cell_bounds m addr 14 b))))
      (rw
        (
          load_at m addr 13 14 fits (omega arith),
          load_at m addr 12 14 fits (omega arith),
          join_6_8 (m.cell (addr + 13)) (m.cell (addr + 12)) (b _) (b _),
        )
        (ap some (omega (arith, cell_bounds m addr 14 b))))
      k

set_14l_0 :
    (m : Memory) (addr v : ℕ)
    → IsBytes m
    → addr + 14 ≤ m.size
    → v < 2 ^ 14
    → IsReplaced fourteen_l m addr 0 v (set_case_14l m addr 0 v)
set_14l_0 m addr v b fits hv =
    patch-IsReplaced fourteen_l m addr 0 v
      ((0, m.cell (addr + 0) % 4 + v * 4) ∷ (1, v / 2 ^ 6) ∷ []) (omega arith) b
      (unfold set_case_14l load store put in
        ground (arith, keep_low_2 (m.cell (addr + 0)) v (omega arith)))
      (simp cell-put_at (omega (arith, cell_bounds m addr 14 b)))

set_14l_1 :
    (m : Memory) (addr v : ℕ)
    → IsBytes m
    → addr + 14 ≤ m.size
    → v < 2 ^ 14
    → IsReplaced fourteen_l m addr 1 v (set_case_14l m addr 1 v)
set_14l_1 m addr v b fits hv =
    patch-IsReplaced fourteen_l m addr 1 v
      ((0, m.cell (addr + 0) / 4 * 4 + v / 2 ^ 12)
        ∷ (2, m.cell (addr + 2) % 16 + v * 16)
        ∷ (3, v / 2 ^ 4)
        ∷ [])
      (omega arith) b
      (unfold set_case_14l load store put in
        ground (
          arith,
          keep_high_6 (m.cell (addr + 0)) (v / 2 ^ 12) (b _) (omega arith),
          keep_low_4 (m.cell (addr + 2)) v (omega arith),
        ))
      (simp cell-put_at (omega (arith, cell_bounds m addr 14 b)))

set_14l_2 :
    (m : Memory) (addr v : ℕ)
    → IsBytes m
    → addr + 14 ≤ m.size
    → v < 2 ^ 14
    → IsReplaced fourteen_l m addr 2 v (set_case_14l m addr 2 v)
set_14l_2 m addr v b fits hv =
    patch-IsReplaced fourteen_l m addr 2 v
      ((2, m.cell (addr + 2) / 16 * 16 + v / 2 ^ 10)
        ∷ (4, m.cell (addr + 4) % 64 + v * 64)
        ∷ (5, v / 2 ^ 2)
        ∷ [])
      (omega arith) b
      (unfold set_case_14l load store put in
        ground (
          arith,
          keep_high_4 (m.cell (addr + 2)) (v / 2 ^ 10) (b _) (omega arith),
          keep_low_6 (m.cell (addr + 4)) v (omega arith),
        ))
      (simp cell-put_at (omega (arith, cell_bounds m addr 14 b)))

set_14l_3 :
    (m : Memory) (addr v : ℕ)
    → IsBytes m
    → addr + 14 ≤ m.size
    → v < 2 ^ 14
    → IsReplaced fourteen_l m addr 3 v (set_case_14l m addr 3 v)
set_14l_3 m addr v b fits hv =
    patch-IsReplaced fourteen_l m addr 3 v
      ((4, m.cell (addr + 4) / 64 * 64 + v / 2 ^ 8) ∷ (7, v) ∷ []) (omega arith) b
      (unfold set_case_14l load store put in
        ground (arith, keep_high_2 (m.cell (addr + 4)) (v / 2 ^ 8) (b _) (omega arith)))
      (simp cell-put_at (omega (arith, cell_bounds m addr 14 b)))

set_14l_4 :
    (m : Memory) (addr v : ℕ)
    → IsBytes m
    → addr + 14 ≤ m.size
    → v < 2 ^ 14
    → IsReplaced fourteen_l m addr 4 v (set_case_14l m addr 4 v)
set_14l_4 m addr v b fits hv =
    patch-IsReplaced fourteen_l m addr 4 v
      ((6, v / 2 ^ 6) ∷ (9, m.cell (addr + 9) % 4 + v * 4) ∷ []) (omega arith) b
      (unfold set_case_14l load store put in
        ground (arith, keep_low_2 (m.cell (addr + 9)) v (omega arith)))
      (simp cell-put_at (omega (arith, cell_bounds m addr 14 b)))

set_14l_5 :
    (m : Memory) (addr v : ℕ)
    → IsBytes m
    → addr + 14 ≤ m.size
    → v < 2 ^ 14
    → IsReplaced fourteen_l m addr 5 v (set_case_14l m addr 5 v)
set_14l_5 m addr v b fits hv =
    patch-IsReplaced fourteen_l m addr 5 v
      ((8, v / 2 ^ 4)
        ∷ (9, m.cell (addr + 9) / 4 * 4 + v / 2 ^ 12)
        ∷ (11, m.cell (addr + 11) % 16 + v * 16)
        ∷ [])
      (omega arith) b
      (unfold set_case_14l load store put in
        ground (
          arith,
          keep_high_6 (m.cell (addr + 9)) (v / 2 ^ 12) (b _) (omega arith),
          keep_low_4 (m.cell (addr + 11)) v (omega arith),
        ))
      (simp cell-put_at (omega (arith, cell_bounds m addr 14 b)))

set_14l_6 :
    (m : Memory) (addr v : ℕ)
    → IsBytes m
    → addr + 14 ≤ m.size
    → v < 2 ^ 14
    → IsReplaced fourteen_l m addr 6 v (set_case_14l m addr 6 v)
set_14l_6 m addr v b fits hv =
    patch-IsReplaced fourteen_l m addr 6 v
      ((10, v / 2 ^ 2)
        ∷ (11, m.cell (addr + 11) / 16 * 16 + v / 2 ^ 10)
        ∷ (13, m.cell (addr + 13) % 64 + v * 64)
        ∷ [])
      (omega arith) b
      (unfold set_case_14l load store put in
        ground (
          arith,
          keep_high_4 (m.cell (addr + 11)) (v / 2 ^ 10) (b _) (omega arith),
          keep_low_6 (m.cell (addr + 13)) v (omega arith),
        ))
      (simp cell-put_at (omega (arith, cell_bounds m addr 14 b)))

set_14l_7 :
    (m : Memory) (addr v : ℕ)
    → IsBytes m
    → addr + 14 ≤ m.size
    → v < 2 ^ 14
    → IsReplaced fourteen_l m addr 7 v (set_case_14l m addr 7 v)
set_14l_7 m addr v b fits hv =
    patch-IsReplaced fourteen_l m addr 7 v
      ((12, v) ∷ (13, m.cell (addr + 13) / 64 * 64 + v / 2 ^ 8) ∷ []) (omega arith) b
      (unfold set_case_14l load store put in
        ground (arith, keep_high_2 (m.cell (addr + 13)) (v / 2 ^ 8) (b _) (omega arith)))
      (simp cell-put_at (omega (arith, cell_bounds m addr 14 b)))

pub fourteen_l-IsPacked : IsPacked fourteen_l get_case_14l set_case_14l
fourteen_l-IsPacked = record {
  get_digit = get_14l;
  set_digit = λ m addr k v b fits hk hv.
      cases8 (λ i. IsReplaced fourteen_l m addr i v (set_case_14l m addr i v))
        (set_14l_0 m addr v b fits hv) (set_14l_1 m addr v b fits hv) (set_14l_2 m addr v b fits hv)
        (set_14l_3 m addr v b fits hv) (set_14l_4 m addr v b fits hv) (set_14l_5 m addr v b fits hv)
        (set_14l_6 m addr v b fits hv) (set_14l_7 m addr v b fits hv) k hk;
}

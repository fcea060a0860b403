-- ===== src/Rawimg/Laws/TwelveLittle.antt =====
-- The 12-bit little endian pixel functions: a block is a number whose digits are its pixels.
use chdkptp_jet_tx1_jet_nano.Common.{
  ℕ, ◌+◌, ◌*◌, ◌/◌, ◌%◌, ◌^◌, ◌<◌, ◌≤◌, true, ◌≡◌, some, arith, ap, [], ◌∷◌, ◌==◌, if◌then◌else◌,
  Memory, IsBytes, load, store, put, cell-put_at, EachBelow, EachBelow-apply, cases4, join_4_8,
  join_8_4, keep_high_4, keep_low_4,
}
use chdkptp_jet_tx1_jet_nano.Rawimg.Layout.{Layout, pixel_of, block_number, weight}
use chdkptp_jet_tx1_jet_nano.Rawimg.Pixel.{get_case_12l, set_case_12l}
use chdkptp_jet_tx1_jet_nano.Rawimg.Laws.Packed.{
  IsPacked, IsReplaced, HasDigits, patch-IsReplaced, cell_bounds, load_at,
}

-- 12-bit pixels, little endian.
abbrev pub twelve_l : Layout
twelve_l = record { bits = 12; bytes = 6; pixels = 4; swapped = true }

twelve_l_rows :
    (b b' v : ℕ)
    → v < 2 ^ 12
    → (k : ℕ) → k < 4
    → b' + pixel_of twelve_l b k * weight twelve_l k ≡ b + v * weight twelve_l k
    → EachBelow (λ k'. pixel_of twelve_l b' k' ≡ (if k == k' then v else pixel_of twelve_l b k')) 4
twelve_l_rows b b' v hv =
    cases4
      (λ k.
        b' + pixel_of twelve_l b k * weight twelve_l k ≡ b + v * weight twelve_l k
        → EachBelow
            (λ k'. pixel_of twelve_l b' k' ≡ (if k == k' then v else pixel_of twelve_l b k')) 4)
      (omega arith) (omega arith) (omega arith) (omega arith)

pub twelve_l-HasDigits : HasDigits twelve_l
twelve_l-HasDigits = record {
  digit = λ b b' v k k' hk hk' hv e.
      EachBelow-apply
        (λ k'. pixel_of twelve_l b' k' ≡ (if k == k' then v else pixel_of twelve_l b k')) 4
        (twelve_l_rows b b' v hv k hk e) k' hk';
}

get_12l :
    (m : Memory) (addr k : ℕ)
    → IsBytes m
    → addr + 6 ≤ m.size
    → k < 4
    → get_case_12l m addr k ≡ some (pixel_of twelve_l (block_number twelve_l m addr) k)
unfolding get_case_12l
get_12l m addr k b fits =
    cases4 (λ i. get_case_12l m addr i ≡ some (pixel_of twelve_l (block_number twelve_l m addr) i))
      (rw
        (
          load_at m addr 1 6 fits (omega arith),
          load_at m addr 0 6 fits (omega arith),
          join_8_4 (m.cell (addr + 1)) (m.cell (addr + 0)) (b _) (b _),
        )
        (ap some (omega (arith, cell_bounds m addr 6 b))))
      (rw
        (
          load_at m addr 0 6 fits (omega arith),
          load_at m addr 3 6 fits (omega arith),
          join_4_8 (m.cell (addr + 0)) (m.cell (addr + 3)) (b _) (b _),
        )
        (ap some (omega (arith, cell_bounds m addr 6 b))))
      (rw
        (
          load_at m addr 2 6 fits (omega arith),
          load_at m addr 5 6 fits (omega arith),
          join_8_4 (m.cell (addr + 2)) (m.cell (addr + 5)) (b _) (b _),
        )
        (ap some (omega (arith, cell_bounds m addr 6 b))))
      (rw
        (
          load_at m addr 5 6 fits (omega arith),
          load_at m addr 4 6 fits (omega arith),
          join_4_8 (m.cell (addr + 5)) (m.cell (addr + 4)) (b _) (b _),
        )
        (ap some (omega (arith, cell_bounds m addr 6 b))))
      k

set_12l_0 :
    (m : Memory) (addr v : ℕ)
    → IsBytes m
    → addr + 6 ≤ m.size
    → v < 2 ^ 12
    → IsReplaced twelve_l m addr 0 v (set_case_12l m addr 0 v)
set_12l_0 m addr v b fits hv =
    patch-IsReplaced twelve_l m addr 0 v
      ((0, m.cell (addr + 0) % 16 + v * 16) ∷ (1, v / 2 ^ 4) ∷ []) (omega arith) b
      (unfold set_case_12l load store put in
        ground (arith, keep_low_4 (m.cell (addr + 0)) v (omega arith)))
      (simp cell-put_at (omega (arith, cell_bounds m addr 6 b)))

set_12l_1 :
    (m : Memory) (addr v : ℕ)
    → IsBytes m
    → addr + 6 ≤ m.size
    → v < 2 ^ 12
    → IsReplaced twelve_l m addr 1 v (set_case_12l m addr 1 v)
set_12l_1 m addr v b fits hv =
    patch-IsReplaced twelve_l m addr 1 v
      ((0, m.cell (addr + 0) / 16 * 16 + v / 2 ^ 8) ∷ (3, v) ∷ []) (omega arith) b
      (unfold set_case_12l load store put in
        ground (arith, keep_high_4 (m.cell (addr + 0)) (v / 2 ^ 8) (b _) (omega arith)))
      (simp cell-put_at (omega (arith, cell_bounds m addr 6 b)))

set_12l_2 :
    (m : Memory) (addr v : ℕ)
    → IsBytes m
    → addr + 6 ≤ m.size
    → v < 2 ^ 12
    → IsReplaced twelve_l m addr 2 v (set_case_12l m addr 2 v)
set_12l_2 m addr v b fits hv =
    patch-IsReplaced twelve_l m addr 2 v
      ((2, v / 2 ^ 4) ∷ (5, m.cell (addr + 5) % 16 + v * 16) ∷ []) (omega arith) b
      (unfold set_case_12l load store put in
        ground (arith, keep_low_4 (m.cell (addr + 5)) v (omega arith)))
      (simp cell-put_at (omega (arith, cell_bounds m addr 6 b)))

set_12l_3 :
    (m : Memory) (addr v : ℕ)
    → IsBytes m
    → addr + 6 ≤ m.size
    → v < 2 ^ 12
    → IsReplaced twelve_l m addr 3 v (set_case_12l m addr 3 v)
set_12l_3 m addr v b fits hv =
    patch-IsReplaced twelve_l m addr 3 v
      ((4, v) ∷ (5, m.cell (addr + 5) / 16 * 16 + v / 2 ^ 8) ∷ []) (omega arith) b
      (unfold set_case_12l load store put in
        ground (arith, keep_high_4 (m.cell (addr + 5)) (v / 2 ^ 8) (b _) (omega arith)))
      (simp cell-put_at (omega (arith, cell_bounds m addr 6 b)))

pub twelve_l-IsPacked : IsPacked twelve_l get_case_12l set_case_12l
twelve_l-IsPacked = record {
  get_digit = get_12l;
  set_digit = λ m addr k v b fits hk hv.
      cases4 (λ i. IsReplaced twelve_l m addr i v (set_case_12l m addr i v))
        (set_12l_0 m addr v b fits hv) (set_12l_1 m addr v b fits hv) (set_12l_2 m addr v b fits hv)
        (set_12l_3 m addr v b fits hv) k hk;
}

-- ===== src/Rawimg/Laws/TwelveBig.antt =====
-- The 12-bit big endian pixel functions: a block is a number whose digits are its pixels.
use chdkptp_jet_tx1_jet_nano.Common.{
  ℕ, ◌+◌, ◌*◌, ◌/◌, ◌%◌, ◌^◌, ◌<◌, ◌≤◌, false, ◌≡◌, some, arith, ap, [], ◌∷◌, ◌==◌, if◌then◌else◌,
  Memory, IsBytes, load, store, put, cell-put_at, EachBelow, EachBelow-apply, cases2, join_4_8,
  join_8_4, keep_high_4, u8, ◌<<◌, keep_low_4,
}
use chdkptp_jet_tx1_jet_nano.Rawimg.Layout.{Layout, pixel_of, block_number, weight}
use chdkptp_jet_tx1_jet_nano.Rawimg.Pixel.{get_case_12b, set_case_12b}
use chdkptp_jet_tx1_jet_nano.Rawimg.Laws.Packed.{
  IsPacked, IsReplaced, HasDigits, patch-IsReplaced, cell_bounds, load_at,
}

-- 12-bit pixels, big endian.
abbrev pub twelve_b : Layout
twelve_b = record { bits = 12; bytes = 3; pixels = 2; swapped = false }

twelve_b_rows :
    (b b' v : ℕ)
    → v < 2 ^ 12
    → (k : ℕ) → k < 2
    → b' + pixel_of twelve_b b k * weight twelve_b k ≡ b + v * weight twelve_b k
    → EachBelow (λ k'. pixel_of twelve_b b' k' ≡ (if k == k' then v else pixel_of twelve_b b k')) 2
twelve_b_rows b b' v hv =
    cases2
      (λ k.
        b' + pixel_of twelve_b b k * weight twelve_b k ≡ b + v * weight twelve_b k
        → EachBelow
            (λ k'. pixel_of twelve_b b' k' ≡ (if k == k' then v else pixel_of twelve_b b k')) 2)
      (omega arith) (omega arith)

pub twelve_b-HasDigits : HasDigits twelve_b
twelve_b-HasDigits = record {
  digit = λ b b' v k k' hk hk' hv e.
      EachBelow-apply
        (λ k'. pixel_of twelve_b b' k' ≡ (if k == k' then v else pixel_of twelve_b b k')) 2
        (twelve_b_rows b b' v hv k hk e) k' hk';
}

get_12b :
    (m : Memory) (addr k : ℕ)
    → IsBytes m
    → addr + 3 ≤ m.size
    → k < 2
    → get_case_12b m addr k ≡ some (pixel_of twelve_b (block_number twelve_b m addr) k)
unfolding get_case_12b
get_12b m addr k b fits =
    cases2 (λ i. get_case_12b m addr i ≡ some (pixel_of twelve_b (block_number twelve_b m addr) i))
      (rw
        (
          load_at m addr 0 3 fits (omega arith),
          load_at m addr 1 3 fits (omega arith),
          join_8_4 (m.cell (addr + 0)) (m.cell (addr + 1)) (b _) (b _),
        )
        (ap some (omega (arith, cell_bounds m addr 3 b))))
      (rw
        (
          load_at m addr 1 3 fits (omega arith),
          load_at m addr 2 3 fits (omega arith),
          join_4_8 (m.cell (addr + 1)) (m.cell (addr + 2)) (b _) (b _),
        )
        (ap some (omega (arith, cell_bounds m addr 3 b))))
      k

set_12b_0 :
    (m : Memory) (addr v : ℕ)
    → IsBytes m
    → addr + 3 ≤ m.size
    → v < 2 ^ 12
    → IsReplaced twelve_b m addr 0 v (set_case_12b m addr 0 v)
set_12b_0 m addr v b fits hv =
    let cut : u8 (v << 4) ≡ (v % 16) << 4 = omega arith in
    patch-IsReplaced twelve_b m addr 0 v
      ((0, u8 (v / 2 ^ 4)) ∷ (1, m.cell (addr + 1) % 16 + v % 16 * 16) ∷ []) (omega arith) b
      (unfold set_case_12b load store put in
        ground (arith, keep_low_4 (m.cell (addr + 1)) (v % 16) (omega arith)))
      (simp cell-put_at (omega (arith, cell_bounds m addr 3 b)))

set_12b_1 :
    (m : Memory) (addr v : ℕ)
    → IsBytes m
    → addr + 3 ≤ m.size
    → v < 2 ^ 12
    → IsReplaced twelve_b m addr 1 v (set_case_12b m addr 1 v)
set_12b_1 m addr v b fits hv =
    patch-IsReplaced twelve_b m addr 1 v
      ((1, m.cell (addr + 1) / 16 * 16 + v / 2 ^ 8) ∷ (2, v) ∷ []) (omega arith) b
      (unfold set_case_12b load store put in
        ground (arith, keep_high_4 (m.cell (addr + 1)) (v / 2 ^ 8) (b _) (omega arith)))
      (simp cell-put_at (omega (arith, cell_bounds m addr 3 b)))

pub twelve_b-IsPacked : IsPacked twelve_b get_case_12b set_case_12b
twelve_b-IsPacked = record {
  get_digit = get_12b;
  set_digit = λ m addr k v b fits hk hv.
      cases2 (λ i. IsReplaced twelve_b m addr i v (set_case_12b m addr i v))
        (set_12b_0 m addr v b fits hv) (set_12b_1 m addr v b fits hv) k hk;
}

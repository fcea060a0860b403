-- ===== src/Liveimg/Convert/Loops.antt =====
-- The two loops over a buffer visit every pixel of the visible part once, in order.
use chdkptp_jet_tx1_jet_nano.Common.{
  ℕ, suc, ◌+◌, ◌-◌, ◌*◌, ◌/◌, ◌%◌, ◌^◌, ◌≤◌, ◌<◌, ◌≡◌, Option, some, List, ap, ◌∙◌, arith, Memory,
  u32,
}
use chdkptp_jet_tx1_jet_nano.Common.Int.{ℤ, pos, ◌+ℤ◌, ◌-ℤ◌, pos-add, pos-sub}
use chdkptp_jet_tx1_jet_nano.Liveimg.Pixels.{collect, rounds}
use chdkptp_jet_tx1_jet_nano.Liveimg.Pixels.Streams.{
  tabulate, tabulate-congr, collect-tabulate, index_parts,
}
use chdkptp_jet_tx1_jet_nano.Liveimg.Pixels.Groups.{IsGroup}
use chdkptp_jet_tx1_jet_nano.Liveimg.Convert.{Shape, top_down, bottom_up}

-- `n` groups of `c` values in a row that begins at `start + row * row_inc`: value `x` of the row.
abbrev pub in_row : {A : Type 0} → (ℕ → ℕ → A) → (bytes c p_row x : ℕ) → A
in_row value bytes c p_row x = value (p_row + x / c * bytes) (x % c)

module _ {A : Type 0} (m : Memory) (group : ℤ → Option (List A)) (bytes c' : ℕ) (value : ℕ → ℕ → A)
    (is_group : IsGroup m group bytes (suc c') value) where
  abbrev c : ℕ
  c = suc c'

  group_values :
      (p_row k : ℕ)
      → p_row + suc k * bytes ≤ m.size
      → group (pos (p_row + k * bytes)) ≡ some (tabulate (in_row value bytes c p_row) (0 + k * c) c)
  group_values p_row k h =
      is_group.gives (p_row + k * bytes) (grind arith)
      ∙ ap some (
          tabulate-congr (value (p_row + k * bytes)) (in_row value bytes c p_row) 0 (0 + k * c) c
            (λ j hj.
              let start : 0 + k * c + j ≡ k * c + j = omega arith in
              let first : 0 + j ≡ j = omega arith in
              let parts = index_parts c k j hj in rw (start, first, parts.0, parts.1)))

  row_values :
      (p_row n : ℕ)
      → p_row + n * bytes ≤ m.size
      → collect group (λ p. p +ℤ pos bytes) n (pos p_row)
        ≡ some (tabulate (in_row value bytes c p_row) 0 (n * c))
  row_values p_row n h =
      ap (λ q. collect group (λ p. p +ℤ pos bytes) n (pos q)) (omega arith)
      ∙ collect-tabulate group (λ p. p +ℤ pos bytes) (λ k. pos (p_row + k * bytes))
          (in_row value bytes c p_row) 0 c 0 n (λ k hk. group_values p_row k (grind arith))
          (λ k hk. pos-add (p_row + k * bytes) bytes ∙ ap pos (grind arith))
      ∙ ap (λ i. some (tabulate (in_row value bytes c p_row) i (n * c))) (omega arith)

  -- Value `j` of a buffer whose row number `r` begins at `row r`, for rows of `w` values.
  abbrev pub in_rows : (row : ℕ → ℕ) (w j : ℕ) → A
  in_rows row w j = in_row value bytes c (row (j / w)) (j % w)

  -- Any way to go from row to row.
  rows_values :
      (next : ℤ → ℤ) (row : ℕ → ℕ) (n h : ℕ)
      → ((r : ℕ) → r < h → row r + n * bytes ≤ m.size)
      → ((r : ℕ) → r + 1 < h → next (pos (row r)) ≡ pos (row (r + 1)))
      → collect (collect group (λ p. p +ℤ pos bytes) n) next h (pos (row 0))
        ≡ some (tabulate (in_rows row (n * c)) 0 (h * (n * c)))
  rows_values next row n h inside moves =
      collect-tabulate (collect group (λ p. p +ℤ pos bytes) n) next (λ r. pos (row r))
        (in_rows row (n * c)) 0 (n * c) 0 h
        (λ r hr.
          row_values (row r) n (inside r (omega arith))
          ∙ ap some (
              tabulate-congr (in_row value bytes c (row r)) (in_rows row (n * c)) 0
                (0 + r * (n * c)) (n * c)
                (λ j hj.
                  let start : 0 + r * (n * c) + j ≡ r * (n * c) + j = omega arith in
                  let first : 0 + j ≡ j = omega arith in
                  let parts = index_parts (n * c) r j hj in rw (start, first, parts.0, parts.1))))
        (λ r hr. moves r (omega arith))
      ∙ ap (λ i. some (tabulate (in_rows row (n * c)) i (h * (n * c)))) (omega arith)

  module _ (step row_inc start n : ℕ) (s : Shape) (whole : rounds s.width step ≡ n)
      (inside : (r : ℕ) → r < s.height → start + r * row_inc + n * bytes ≤ m.size) where
    -- From the top row on.
    pub top_down_lem :
        top_down group step bytes row_inc s (pos start)
        ≡ some (tabulate (in_rows (λ r. start + r * row_inc) (n * c)) 0 (s.height * (n * c)))
    unfolding top_down
    top_down_lem = rw whole (
        ap
          (λ q.
            collect (collect group (λ p. p +ℤ pos bytes) n) (λ p. p +ℤ pos row_inc) s.height
              (pos q))
          (omega arith)
        ∙ rows_values (λ p. p +ℤ pos row_inc) (λ r. start + r * row_inc) n s.height inside
            (λ r hr. pos-add (start + r * row_inc) row_inc ∙ ap pos (grind arith)))

    -- From the bottom row back, if the offset of that row fits its 32 bits.
    pub bottom_up_lem :
        0 < s.height
        → s.height * row_inc < 2 ^ 32
        → s.height < 2 ^ 32
        → bottom_up group step bytes row_inc s (pos start)
          ≡ some (
              tabulate
                (in_rows (λ r. start + (s.height - 1 - r) * row_inc) (n * c))
                0
                (s.height * (n * c)))
    unfolding bottom_up
    bottom_up_lem some_rows small small_height =
        let rows : u32 (s.height + 2 ^ 32 - 1) ≡ s.height - 1 = omega arith in
        let same : s.height - 1 - 0 ≡ s.height - 1 = omega arith in
        let below : (s.height - 1) * row_inc < 2 ^ 32 = grind arith in
        let last : u32 ((s.height - 1) * row_inc) ≡ (s.height - 1 - 0) * row_inc =
          rw same (omega arith) in
        rw (whole, rows, last, pos-add start ((s.height - 1 - 0) * row_inc))
          (rows_values (λ p. p -ℤ pos row_inc) (λ r. start + (s.height - 1 - r) * row_inc) n
            s.height (λ r hr. inside (s.height - 1 - r) (omega arith))
            (λ r hr.
              let up : s.height - 1 - r ≡ suc (s.height - 1 - (r + 1)) = omega arith in
              let step_back : start + (s.height - 1 - r) * row_inc
                  ≡ start + (s.height - 1 - (r + 1)) * row_inc + row_inc =
                rw up (grind arith) in
              pos-sub (start + (s.height - 1 - r) * row_inc) row_inc (omega arith)
              ∙ ap pos (omega arith)))

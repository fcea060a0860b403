-- ===== src/Lbuf/Tests.antt =====
-- Runs of the buffer's methods, and the theorems at them.
use chdkptp_jet_tx1_jet_nano.Common.{
  ◌<◌, ◌+◌, ◌*◌, ◌%◌, ◌≡◌, refl, arith, Option, none, some, slice, ltb, if◌then◌else◌, Memory,
  IsBytes, ℕ, List, [], ◌∷◌, Bool, false, length, inr, ◌-◌, min,
}
use chdkptp_jet_tx1_jet_nano.Lbuf.{index, from_end, lbuf_sub, lbuf_reverse_bytes}
use chdkptp_jet_tx1_jet_nano.Lbuf.Parts.{lbuf_sub-slice}
use chdkptp_jet_tx1_jet_nano.Lbuf.Reverse.{partner, lbuf_reverse_bytes-swaps}
use chdkptp_jet_tx1_jet_nano.Common.Int.{ℤ, pos, ltb_ℤ}
use chdkptp_jet_tx1_jet_nano.Common.Results.{ok, err, fault}
use chdkptp_jet_tx1_jet_nano.Lbuf.Values.{get_vals, set_vals}
use chdkptp_jet_tx1_jet_nano.Lbuf.Values.RoundTrip.{get_vals-set_vals}
use chdkptp_jet_tx1_jet_nano.Lbuf.Values.Outside.{get_vals_behind, set_vals_behind}
use chdkptp_jet_tx1_jet_nano.Lbuf.Fill.{lbuf_fill}
use chdkptp_jet_tx1_jet_nano.Lbuf.Fill.Pattern.{IsFilled, lbuf_fill-IsFilled}

abbrev five : Memory
five = record { size = 5; cell = λ i. (i * 3 + 1) % 256 }

abbrev empty : Memory
empty = record { size = 0; cell = λ i. 0 }

five-IsBytes : IsBytes five
five-IsBytes i = omega arith

abbrev small_blocks : ℕ → Option Memory
small_blocks n = if ltb n 100 then some (record { size = n; cell = λ i. 0 }) else none

lbuf_sub-slice_example :
    (lbuf_sub small_blocks five (index 2) (index 4) ≡ ok (slice five.cell 1 3))
    × (lbuf_sub small_blocks five (index 2) (from_end 2) ≡ ok (slice five.cell 1 3))
lbuf_sub-slice_example =
    lbuf_sub-slice small_blocks five 2 2 (omega arith) (omega arith) (omega arith) (omega arith)

lbuf_reverse_bytes-swaps_example :
    (out : Memory) × (lbuf_reverse_bytes five ≡ some out)
    × (out.size ≡ 5)
    × ((j : ℕ) → out.cell j ≡ (if ltb j 4 then five.cell (partner j) else five.cell j))
lbuf_reverse_bytes-swaps_example =
    lbuf_reverse_bytes-swaps five five-IsBytes (omega arith) (omega arith)

-- A stack of 8000 values.
abbrev small_stack : ℤ → Bool
small_stack n = ltb_ℤ n (pos 8001)

small_stack_full : (n : ℕ) → 8000 < n → small_stack (pos n) ≡ false
small_stack_full n h = ground arith

get_vals_behind_example :
    get_vals small_stack 4 empty (pos 3) (pos 1) ≡ err "insufficient stack space"
get_vals_behind_example =
    get_vals_behind small_stack 8000 4 empty 3 (omega arith) small_stack_full (inr refl)
      (omega arith) (omega arith) (omega arith)

set_vals_behind_example : set_vals false 4 empty (pos 3) (7 ∷ []) ≡ fault
set_vals_behind_example =
    set_vals_behind 4 empty 3 7 [] (omega arith) (omega arith) (omega arith) (omega arith)
      (omega arith) (omega arith)

abbrev two_numbers : List ℕ
two_numbers = 513 ∷ 65535 ∷ []

get_vals-set_vals_example :
    (buf' : Memory) × (set_vals false 2 five (pos 1) two_numbers
      ≡ ok (buf', pos (length two_numbers)))
    × (get_vals small_stack 2 buf' (pos 1) (pos (length two_numbers)) ≡ ok two_numbers)
get_vals-set_vals_example =
    get_vals-set_vals small_stack 2 five 1 two_numbers (omega arith) (omega arith) (omega arith)
      (omega arith) (omega arith) (omega arith) refl

abbrev pair : Memory
pair = record { size = 2; cell = λ i. 7 + i }

lbuf_fill_example :
    (out : Memory) × (lbuf_fill five pair 1 (some 3) ≡ some (out, min (5 - 1) (3 * 2)))
    × IsFilled five out 1 (min (5 - 1) (3 * 2)) (λ j. pair.cell (j % 2))
lbuf_fill_example =
    lbuf_fill-IsFilled five pair 1 3 (omega arith) (omega arith) (omega arith) (omega arith)
      (omega arith)

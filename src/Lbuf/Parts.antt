-- ===== src/Lbuf/Parts.antt =====
-- Which bytes `sub` and `byte` give.
use chdkptp_jet_tx1_jet_nano.Common.{
  ℕ, ◌+◌, ◌-◌, ◌^◌, ◌≤◌, ◌<◌, ◌≡◌, arith, slice, Memory, Option, none, some, List,
}
use chdkptp_jet_tx1_jet_nano.Common.Results.{Result, ok, err}
use chdkptp_jet_tx1_jet_nano.Lbuf.{index, from_end, get_index_arg, part, lbuf_sub}

-- `n` bytes from an offset on, or the error that there is no block for them.
abbrev pub copied_part : (ℕ → Option Memory) → Memory → ℕ → ℕ → Result (List ℕ)
copied_part malloc buf first n = elim (malloc n) [
  | none ↦ err "malloc failed"
  | some block ↦ ok (slice buf.cell first n)
]

-- For a buffer of less than 2 ^ 31 bytes and positive indexes i ≤ j inside it, written as j = len + 1 - k,
-- `sub` gives bytes i to j counted from 1 if malloc has a block for them, and raises an error if not;
-- it does the same if -k is the last index, which counts from the end.
pub lbuf_sub-slice :
    (malloc : ℕ → Option Memory) (buf : Memory) (i k : ℕ)
    → buf.size < 2 ^ 31
    → 0 < i
    → 0 < k
    → i + k ≤ buf.size + 1
    → (lbuf_sub malloc buf (index i) (index (buf.size + 1 - k))
        ≡ copied_part malloc buf (i - 1) (buf.size + 2 - k - i))
      × (lbuf_sub malloc buf (index i) (from_end k)
          ≡ copied_part malloc buf (i - 1) (buf.size + 2 - k - i))
unfolding lbuf_sub get_index_arg part
lbuf_sub-slice malloc buf i k small pi pk inside = ground arith
